-- ===== src/Lib.antt =====
-- A model of the parts of the contracts backend that decide something by themselves, with the
-- theorems that make them correct. Paths are given from the repository's root.
--
-- The program is an express server over a database whose stored functions hold most of the domain
-- logic. What it decides in its own code, and what is modelled here:
--
-- * The correlation rules. src/services/rule-parser.service.ts reads a rule, two YAML texts, into a
--   match block and a produce block (Rules/Parse: `parse_rule_yaml` is parseRuleYaml).
--   src/services/rule-cache.service.ts keeps the enabled rules in memory and reloads them when the
--   database notifies (Rules/Cache: `begin_load`, `load_ok` and `load_failed` are loadRules up to its
--   call, and after it; `Step` has what the process and the database do between, for any number of loads
--   at once; what fn_rule_list gives of the stored rules is a parameter).
--   src/services/rule-evaluator.service.ts evaluates a match block against a signal and a contract
--   (Rules/Context has its types, Rules/Matching its helpers, Rules/Predicates/Signal, Contract and
--   Join the three lists of checks, Rules/Evaluate the connectives: `eval_block` is evalBlock,
--   `evaluate_match_block` is evaluateMatchBlock), and makes the correlation's confidence, reason and
--   priority from the produce block (Rules/Template, Rules/Produce).
-- * The gates in front of the handlers. src/utils/errors.util.ts and
--   src/middleware/error.middleware.ts (Auth/Errors), src/middleware/auth.middleware.ts,
--   src/middleware/module.middleware.ts and the verifiers of src/utils/jwt.util.ts (Auth/Bearer,
--   Auth/Guards), and src/integrations/uae-pass/state-store.ts (Auth/StateStore). A guard raises an
--   error of Auth/Errors, which the error middleware turns into a response.
-- * The migration runner, src/database/migrate.ts: the splitter of SQL scripts (Migrate/Split:
--   `split_statements` is splitStatements, `is_control_statement` is isControlStatement;
--   Migrate/Split/Pieces is the grammar of scripts that its theorem is about), the search for the
--   rollback markers (Migrate/Markers), and applySqlBody, runUp and runDown over a database that is a
--   parameter (Migrate/Runner; Migrate/Runner/Laws and Migrate/Runner/Records state what the database
--   promises of transactions and of its table of versions).
-- * Workers driven by a clock: src/services/report-scheduler.service.ts (Workers/Scheduler),
--   src/services/ai-insight-eviction.cron.service.ts (Workers/Eviction),
--   src/workers/notification-retry.worker.ts (Workers/Retry),
--   src/services/signature-expiration.cron.service.ts and
--   src/services/approval-escalation.cron.service.ts (Workers/Expiration), and
--   src/workers/correlation-evaluator.worker.ts (Workers/Correlation), which evaluates each new signal
--   against the rules that the rule cache holds.
-- * Report runs, src/services/report-run-executor.service.ts and src/workers/report-run.worker.ts
--   (Workers/ReportRun: `execute_report_run_row` is executeReportRunRow, `process_run` processRun), and
--   the workers on risk cases and obligations in src/workers (Workers/Cases: risk-case-escalation,
--   risk-case-auto-create, risk-case-auto-dismiss, risk-triage-auto-escalate,
--   obligation-sla-escalation; Workers/Scores: score-recompute, margin-recompute).
-- * Documents and feeds. src/workers/ingestion.worker.ts (Ingest/Jobs: `process_job` is processJob),
--   src/workers/source-fetch.worker.ts (Ingest/Feeds), src/workers/source-health.worker.ts
--   (Ingest/Health), src/workers/migration-sync.worker.ts and src/workers/clause-extraction.worker.ts
--   (Ingest/Queues),
--   src/utils/extraction-router.util.ts (Ingest/Engine), and
--   src/services/migration-orchestrator.service.ts, the import of a drive's folder: Ingest/Drive/Session
--   has its calls and the monad in which they follow one another, Fields what is read from a text,
--   Parties the token and the parties, Files the way of one file (`process_single_file`), Batch the
--   whole (`process_batch`).
-- * Redlines, src/services/contract-redline-import.service.ts: Redline/Clauses parses a contract into
--   clauses, Redline/Align cuts a text along our headings, Redline/Diff compares clauses and applies
--   accepted changes, Redline/Import has the two operations around them.
-- * The canonical form of audit records, src/utils/audit-canonical.util.ts (Audit/Canonical).
--
-- Base has the names and lemmas that all share, Calls what a call of another service gives, texts as
-- code units, and the guard and the driver that the workers repeat, Chars the texts that are searched character by
-- character, Js the values of unknown shape that rules are made of, with the conversions of the
-- language. Laws modules hold proofs; Tests modules run the definitions on concrete values.
--
-- The newer models of workers and of the import record each call, newest first, and take what calls
-- give as functions of the calls made so far, so that an answer may depend on all that went before.
-- Ingest/Feeds and Workers/Expiration count and take their answers directly.
--
-- State is passed explicitly. A Map is a list of pairs in insertion order. An exception is a value.
-- Numbers of the rule engine are doubles, which are left abstract: they and the library calls on them
-- are the record Js.Runtime, a parameter. So are jwt.verify, the lookup of a user, yaml.load, the
-- cron library's validation, the mail transport and what the database answers. Times and counters
-- are natural numbers. Log calls are left out.
--
-- Bounds and fuel: the evaluator takes fuel, one unit more than the depth of the block, which
-- Rules/Evaluate/Fuel shows to be enough. The loop over leading comments takes one unit more than the
-- text is long, which Migrate/Split/Control shows to be enough. The eviction sweep counts down the
-- cap of 50 batches that the source has, and so does the sweep over invitations. All other loops are structural.
--
-- Not modelled: controllers, routes and schemas, which declare; the adapters, mail, storage and
-- language-model services, which call; of the document import, the loading of the context, the staging of files and the regular
-- expressions of the heuristic, which are parameters; the command line of the migration runner; the
-- SQL of the database.
pub mod Base
pub mod Calls
pub mod Chars
pub mod Js
pub mod Rules
pub mod Auth
pub mod Migrate
pub mod Workers
pub mod Audit
pub mod Ingest
pub mod Redline
