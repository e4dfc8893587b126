-- ===== src/Lib.antt =====
-- A model of the privacy gateway: an HTTP service between an application and an LLM provider. It
-- detects personal data in chat messages, blocks the request or replaces the data by tokens or
-- redactions, forwards the sanitized messages, restores the tokens in the answer, and writes
-- evidence of each request to a hash-chained audit log.
--
-- The files and the code they model:
--   Errors                gateway/errors.py: error codes and exceptions. A call that may raise returns
--                         `ok` or `raise`.
--   Json                  the values of json.loads and what the code does with them: truth, int, str,
--                         x[key], x.get(key).
--   Config                gateway/config.py: Settings, the security rules and load. Reading and parsing
--                         the environment is a parameter, which gives settings, the names of fields
--                         that cannot be parsed, or an exception; `Pydantic` has the name that is
--                         reported for a field, and whether NaN passes a range.
--   Policy                gateway/policy.py: actions, load_policy, build_decisions,
--                         blocked_entity_types.
--   Pattern               the regular expressions that TOKEN_PATTERN is written with: `match` takes the
--                         longest repetition first and backtracks, `sub` replaces from left to right.
--   Tokenization          gateway/tokenization.py: TokenizationContext. The namespace candidates are a
--                         function of the attempt, of which there are 32, as in the code.
--   Mediator, Anonymizer  gateway/pii_mediator.py: analyze, apply, redact_all. Presidio is a record of
--                         functions that may raise. `ReplacesSpans` states what is relied on: the
--                         anonymizer cuts the text into stretches and spans of the results, calls the
--                         operator of each span and puts its result in the span's place; it may
--                         also try operators on other values.
--   Checkpoint            gateway/checkpoint.py: AuditCheckpoint, and in Checkpoint.Store the save and
--                         load of LocalFileCheckpointStore. A save gives its outcome and every disk
--                         that it goes through; the outcomes of the system calls are a `SaveEnv`.
--   Audit                 gateway/audit_logger.py: rows, hashes, queries.
--   Audit.Append          append and its transaction, with five attempts, as in the code. What the
--                         database and the checkpoint store do is an `AppendEnv`.
--   Audit.Verify          verify_chain and verify_with_store. The rows are walked by structural
--                         recursion.
--   Audit.Concurrent      several processes on one database: each transaction and each save of a
--                         checkpoint is one step, in any order.
--   Logging               gateway/logging_utils.py: configure_safe_logging on the levels of all loggers.
--   Providers             gateway/llm_client.py: the normalization of a response, _post_json on the outcome
--                         of an HTTP call, the two adapters (Providers.Adapters), the mock client and
--                         build_client (Providers.Clients). httpx is the parameter `Transport`.
--   Gateway               gateway/gateway_api.py: the request and its limits, the stages of the chat
--                         handler (Gateway.Chat), the audit payloads, the error handlers and the
--                         middleware (Gateway.Http), the audit endpoints (Gateway.Admin) and create_app
--                         (Gateway.Application). The provider, clocks, UUIDs, the canonical hashes and
--                         the encoding of a JSON response are a `Surroundings`, of which the provider,
--                         the hashes and the encoding may raise; the constructors of other libraries are
--                         a `Platform`.
--   Evaluation            evaluation/run_detection_evaluation.py: the spans of a value in a text and the
--                         counts of evaluate. The loop over the spans has fuel for every place of the
--                         text, of which there is one more than characters.
--   Evaluation.Attacks    evaluation/run_audit_attack_evaluation.py: the attacks on a table, the
--                         verifications and the exit status. SQL statements act on the list of rows
--                         (Evaluation.Tables), which
--                         a query sorts by id; what happens at each append is a `Bench`.
--   Evaluation.Leakage    evaluation/run_leakage_evaluation.py: the cases go through the chat handler to
--                         the mock provider, and the labelled values are searched for in the texts that
--                         a `Harness` makes of the calls, the database and the responses.
--   Evaluation.Latency    evaluation/run_latency_benchmark.py: the timing loop and its statistics.
--
-- The parts interact as in the code: the handler analyzes every message, hands the detections to
-- build_decisions, refuses or applies the operators with one TokenizationContext for all messages,
-- calls the provider, scans the answer, appends to the audit log and rehydrates. Its state is the audit
-- table, the checkpoint and the list of calls that the provider has received.
--
-- create_app builds the mediator, the log and the client from the settings, and makes the policy of the
-- response scan from that of the mediator. Gateway.Serving runs requests one after another, and
-- Gateway.EndToEnd follows one to the mock provider and back.
--
-- Texts are lists of code points. A score is a float of at least 0, and so a natural number of the
-- unit 2^-1074; other floats have a sign too, and a float of the settings may be infinite or NaN.
-- SHA-256, HMAC, JSON texts, UTF-8 and rounding are parameters. Where a result needs it,
-- `HasHexDigests` says that digests are lower-case hexadecimal, `NoCollision` that two rows do not
-- collide, and `MeetsNoCollision` that no row which the attack evaluation changes collides with
-- the row it was. SQLite is taken to commit a transaction or to leave the table as it was, one
-- writer at a time.
--
-- A loaded checkpoint has integers of any sign, where the walk of verify_chain takes a natural number: a
-- file that was edited to hold a negative id is outside of the model of the verification.
--
-- Not modelled: pydantic's parsing of requests and settings, the routing of FastAPI, the set-up of
-- Presidio's engines and of the database schema, the encoding of the bodies of error responses and
-- of the audit endpoints, main of gateway/gateway_api.py, the ratios of the detection evaluation,
-- what the evaluation scripts print and write to files, evaluation/common.py, and demo.py, which
-- calls the parts above and prints what they return.
pub mod Prelude
pub mod Errors
pub mod Pattern
pub mod Json
pub mod Config
pub mod Policy
pub mod Anonymizer
pub mod Tokenization
pub mod Mediator
pub mod Checkpoint
pub mod Audit
pub mod Logging
pub mod Providers
pub mod Gateway
pub mod Evaluation
