-- ===== src/Lib.antt =====
-- A verification library for the server of CIMP, a help desk for several platforms (NestJS, under
-- src/ of the repository): definitions that follow the TypeScript of its core services, and
-- theorems on them.
--
-- The parts and how they interact. A request carries a principal with its role grants
-- (src/auth/auth.types.ts). The guards and the scope service (src/authz) decide whether it may
-- act. The issue services (src/issues) check, then write rows, an audit row and an event: the
-- staff writes and bulk updates (issues.service.ts), the merge of duplicates and what the
-- resolution of an issue tells them (merge.service.ts), the sweep for missed targets
-- (sla-escalation.service.ts). The inbound Jira webhook (src/jira) writes the status of a linked
-- issue by the same side effects. Reporters file issues with attachments, reply and rate
-- (src/reporter, src/csat), the scan decides which attachments are served (src/scanning), and staff
-- comment (src/comments). The administration (src/admin) writes platforms, accounts and
-- grants, and each request's token is checked against the accounts (src/auth). Saved views use a filter language of their own (jql.ts).
--
-- Prelude: what the other modules share, with tables as lists of rows with a key (Prelude/Table)
--   and texts as lists of character codes (Prelude/Text).
-- Domain: src/common/enums.ts, src/common/constants.ts, src/events/issue-events.ts and the HTTP
--   errors. A service returns a Result: `ok` or the exception's class and message.
-- Common: src/common/env-flag.ts (parse_env_flag) and content-disposition.ts.
-- Authz: src/authz/scope.service.ts (scopedPlatformIds, canAccessPlatform, scopeAllows),
--   role-sets.ts, platform-access.guard.ts (can_activate) and roles.guard.ts (roles_guard).
-- Store: the columns of src/entities/*.entity.ts that the services read or write, all tables as
--   one record Db, and the writes the services share (save_issue, record_audit for
--   AuditService.record, emit for the event emitter).
-- Issues: src/issues/status-machine.ts, status-side-effects.ts and the mutations of
--   issues.service.ts; change_status, change_assignment and change_priority are changeStatus,
--   changeAssignment and changePriority. Issues/Bulk is bulkUpdate.
-- Merge: src/issues/merge.service.ts; merge and on_canonical_status_changed.
-- Jira: src/jira/jira-inbound.service.ts; apply_webhook is applyWebhook.
-- Sla: src/issues/sla.ts and sla-escalation.service.ts; sla_state and due_at are computeSla,
--   is_due_sql is the condition that slaDueSql writes.
-- Jql: src/issues/jql.ts; Jql/Tokens has tokenize and parse_jql, which is parseJql.
--   Jql/Thrown is about where it throws what is no bad query.
-- Issues/Csv: src/issues/issues.csv.ts; to_csv is toCsv. Issues/Csv/Reader reads such files.
-- StatusPage: src/status/status.service.ts. StatusPage/Staff has the writes, with handle for the
--   routes of status.controller.ts, StatusPage/Public the page that everybody may read.
-- Accounts: the accounts and their grants. Accounts/Rows has the columns, Accounts/Admin the checks
--   of src/admin/admin.service.ts, and Accounts/Admin/Service its operations (createStaff is
--   create_staff, and so on), with handle for the routes of admin.controller.ts that write.
--   Accounts/Sessions is src/auth/auth.service.ts (upsertFromClaims is upsert_from_claims) and
--   local-auth.service.ts (login, verifyToken, signSseTicket, verifySseTicket).
--   Accounts/Handoff is src/handoff: verify and the guard.
-- Automation: the engine of src/issues/automation.service.ts; apply_for_created and
--   apply_for_status_changed are applyForCreated and applyForStatusChanged. Automation/Rules is the
--   management of the rules (create, update, remove) with assertActionValue.
-- Relations: the labels, links and watchers of issues, labels.service.ts, issue-links.service.ts and
--   watchers.service.ts of src/issues. The platforms that a label may name are a parameter.
-- Webhooks: src/webhooks/webhooks.service.ts. deliver, settle (the callbacks of attempt),
--   on_delivered and on_exhausted act on the map of failures and the attempts under way; step and
--   run are the events and answers that happen to the service, in any order. Webhooks/Url is
--   assertSafeUrl.
-- ContextSanitizer: src/reporter/context-sanitizer.ts; sanitize_context is sanitizeContext.
-- Portal: what reporters do, on a state of its own (Portal/Rows): src/reporter/reporter.service.ts
--   and reporter-upsert.ts, src/common/magic-bytes.ts and src/csat/csat.service.ts. Portal/Intake is
--   createIssue with validateFiles and persistIssue, Portal/Reads the list, the issue and the
--   download, Portal/Replies addComment (add_reply), markSeen and submit.
-- Comments: addComment and editComment of src/comments/comments.service.ts, on the same state.
-- Scanning: src/scanning/scanning.listener.ts and scan-retry.service.ts, and getForStaff of
--   src/issues/attachments.service.ts. Scanning/World has the requests and jobs as steps, and the
--   states that they reach.
-- Scenario: a small help desk on which the Tests modules run the theorems.
--
-- How the program is read. An id is a number, a time a number of milliseconds, a transaction one
-- step from one Db to the next, and a service that throws changes nothing. What belongs to
-- libraries is a parameter: what TypeORM does to the version and update columns (Orm), the letter
-- case and date parsing of the language's runtime (Js), the reading of a text as a UUID by
-- class-validator, the trimming of texts, the collation of the database, JSON, the signing and verification of tokens (jsonwebtoken), the hashing and comparison
-- of passwords (bcrypt), the parsing of addresses, the verdicts of the malware scanner. The keys,
-- ids and references that the storage, the database and the generator give to an intake, and
-- where the database fails for it, are its Surroundings. A theorem that relies on such a parameter says
-- so. Clock reads of one request are one time.
--
-- Fuel. The tokenizer runs on the length of the text plus one, of which Jql.Tokens.scan_fuel shows
-- that more makes no difference; the loop over clauses runs on the number of tokens plus one.
--
-- Not modelled: the reads of staff for display (lists, details, dashboard), mail, the storage's own
-- services, translation, the scanner's protocol and other input and output, the first contacts of
-- one reporter at the same time, the framework's wiring, the front end, and the rounding of
-- floating-point hours, for which Sla has fractions. The services not named above are not modelled
-- yet.
pub mod Prelude
pub mod Domain
pub mod Authz
pub mod Store
pub mod Issues
pub mod Merge
pub mod Jira
pub mod Sla
pub mod Jql
pub mod ContextSanitizer
pub mod Accounts
pub mod Webhooks
pub mod Automation
pub mod Portal
pub mod Common
pub mod Comments
pub mod Relations
pub mod Scanning
pub mod StatusPage
pub mod Scenario
