-- ===== src/Evaluation.antt =====
-- The offline evaluation of a trained model (domain/model_evaluation.py, the evaluator of
-- infrastructure/ml/isolation_forest.py, infrastructure/database/model_evaluation_store.py and the
-- loop of evaluate_model_main.py).
pub mod Evidence
pub mod Evaluator
pub mod Totality
pub mod Gates
pub mod Store
pub mod Rows
pub mod Approval
