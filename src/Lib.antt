-- ===== src/Lib.antt =====
-- Smart factory monitor (src/smart_factory): telemetry of machines arrives by MQTT, is checked and
-- stored with the anomalies that it shows, and anomalies of some severities are delivered as alerts;
-- models are evaluated before they serve; models and signing keys are changed by operators under an
-- audit trail.
--
-- How the parts interact. The consumer takes a message, decodes the reading and hands it to the
-- telemetry service, which evaluates the rules and saves reading, findings and outbox rows in one
-- transaction. The dispatcher claims outbox rows under a lease, sends them and marks them. Promotion,
-- rollback and key rotation record events in the hash-chained audit trail around the registry and the
-- keyring; checkpoints are signed statements about that trail. Settings are read from the environment
-- once and give the dispatcher its limits. A release is a directory of evidence: its bundle is verified,
-- then signed, and the private part is encrypted for the archive.
--
-- Which module models what (functions keep the source's names):
--   Common         helpers: tests, lists, results, methods that change an object and may raise;
--                  Common.Ensures says what holds of the value of a computation that returns
--   Domain         timestamps and identifiers (domain/, config.py)
--   Audit.Event    domain/operator_audit.py
--   Audit.Chain    infrastructure/database/operator_audit.py: append and verify on the list of rows
--   Audit.Checkpoint  infrastructure/audit/checkpoint.py, domain/audit_checkpoint.py
--   Audit.Keyring  infrastructure/audit/keyring.py, domain/audit_keyring.py; its rotator over the key
--                  files is Audit.Keyring.Rotator
--   Signing        infrastructure/ml/artifact_signing.py
--   Registry       domain/model_registry.py; Registry.Files is the publisher of
--                  infrastructure/ml/registry.py on the files of its directory
--   Evaluation     domain/model_evaluation.py, infrastructure/database/model_evaluation_store.py, the
--                  evaluator of infrastructure/ml/isolation_forest.py and run of evaluate_model_main.py
--   Operations     application/services/model_promotion.py and audit_key_rotation.py over ports
--   Telemetry      domain/telemetry.py, domain/anomaly.py, domain/services/anomaly_detection.py,
--                  application/services/anomaly_detection.py and telemetry.py
--   Observability  observability.py, without its HTTP server
--   Storage        the tables; Storage.Repository is infrastructure/database/telemetry_repository.py,
--                  with its loads in Storage.History; Storage.Outbox is infrastructure/database/alert_outbox.py
--   Alerts         application/services/alert_dispatch.py
--   Mqtt           infrastructure/mqtt/consumer.py: Topic, Consumer (messages), Connection, and
--                  Ingestion (the consumer over the telemetry service)
--   Settings       config.py: the readers of variables, with Mqtt, Ml, Alerts, Audit and Runtime for
--                  its classes
--   Release        release_verification.py (Json, Files, Sboms, Checksums, Bundle, Verification),
--                  release_signature.py (Signature) and release_evidence_crypto.py (Encryption)
--   Tests          concrete data
--
-- How state is kept. An object is a record, a method a function from the record to a result and the
-- new record; an exception is an error value beside the state that was written before it. A table is
-- the list of its rows (of the audit trail, in the order of their sequence numbers); a transaction is
-- one step on it, and that of the telemetry repository runs its statements on a working state, which
-- is rolled back or committed as the driver's failure demands. Threads and processes are sequences of steps.
-- Instants and durations are numbers of microseconds; UUIDs are numbers; bytes are texts. Floats are
-- a type with the comparisons that the program uses. Loops are by recursion on a
-- list, but for the two loops over the transitions of a keyring: their fuel is one more than there
-- are transitions, which is enough since no key is visited twice.
--
-- What is a parameter: JSON, UTF-8, SHA-256, Ed25519, base64, the ciphers, uuid5, isoformat, fresh
-- ids, clocks, the database driver's failures, the MQTT client, the alert sink, the anomaly
-- detectors that use scikit-learn, the fitted estimator and the arithmetic of floats, Python's
-- parsers of numbers, addresses and UUIDs, and the regular expressions that search the deployment
-- manifest. A theorem that needs more of a parameter names it as a hypothesis: a decoder undoes its
-- encoder, a signature that was made is accepted, a cipher opens what it sealed, SHA-256 has 64
-- hexadecimal characters, finite floats are ordered, and a logarithm of a positive share is defined.
-- That two contents differ under one SHA-256 is never excluded: it is a case of the conclusion. A
-- directory of the file system is the list of its entries, read once.
--
-- What is not modelled: logging, the HTTP server, the webhook and the publisher (calls of client
-- libraries), model training (scikit-learn), the loading of models and their score of a reading, the
-- creation of a keyring and the digest of its snapshot, the generation of key pairs, the scripts that
-- assemble release evidence, and the command line programs but for the loop that evaluates models.
pub mod Common
pub mod Domain
pub mod Audit
pub mod Settings
pub mod Release
pub mod Signing
pub mod Registry
pub mod Evaluation
pub mod Operations
pub mod Telemetry
pub mod Observability
pub mod Storage
pub mod Alerts
pub mod Mqtt
mod Tests
