-- ===== src/Audit.antt =====
-- Operator audit: events (domain/operator_audit.py) and their hash chain
-- (infrastructure/database/operator_audit.py), and
-- signed checkpoints of the chain (infrastructure/audit/checkpoint.py), and the keyring that they
-- are verified with (infrastructure/audit/keyring.py).
pub mod Event
pub mod Chain
pub mod Checkpoint
pub mod Keyring
