-- ===== src/Lib.antt =====
-- Form-Respondent-Role: forms whose respondents get Discord roles.
--
-- An administrator builds a form (the schema), binds a role of a guild to it (the role link) and
-- says which responses qualify (the conditions). A member's submission is validated against the
-- schema, graded where the form is a quiz, and stored where the retry rules accept the attempt.
-- Jobs in a durable queue then bring the role assignments in line with the responses: one kind
-- synchronises a member over all links, the other a link over all members, and both decide by the
-- same evaluation of the conditions. The worker claims jobs, runs them and settles their rows.
--
-- The files and the code (paths from the repository's root):
--   Models, Models/Condition   src/models/condition.rs: ConditionOperator, Condition, ConditionTarget
--   Models/Form                src/models/form.rs: FormSchema, Question and the walks over them
--   Eval                       src/services/condition_eval.rs: evaluate, evaluate_single
--   Retry                      src/services/retry.rs: decide
--   RoleConfig                 src/schema.rs: parse_role_config, validate_condition
--   Validator/Answers          src/services/form_validator.rs: validate and the validator of each kind;
--                              validate_text is check_text here, and so on, after the common test
--                              of a blank answer, which is unless_blank
--   Validator/Quiz             the same file: compute_quiz_score, is_graded, validate_quiz_keys
--   Validator/Sanity           the same file: sanity_check, check_question_kind
--   Jobs                       src/services/jobs.rs: the statements on the jobs table
--   Worker                     src/tasks/job_worker.rs: dispatch, and the settling of a job in run
--   Errors                     src/error.rs: AppError, its text and its response
--   Sync                       src/services/sync.rs: the tables, query_qualifying
--   Sync/Player                the same file: sync_for_player, remove_all_assignments
--   Sync/Link                  the same file: sync_for_role_link, recheck_held
--   Tokens, Tokens/Bytes       src/services/rl_token.rs: the signatures and their comparison
--   Tokens/Jwt                 the same file: verify, the token of RoleLogic
--   Tokens/Iframe              the same file: mint_iframe_session, verify_iframe_session
--   Tokens/Cookie              src/services/session.rs and dweeb_session.rs
--   Guards                     src/services/csrf.rs and read_only_guard.rs
--   Submission                 src/routes/form_render.rs: the tables, and what its handlers share
--   Submission/Page            the same file: get_form, get_preview, build_retry_status
--   Submission/Redaction       the same file: redact_answer_keys
--   Submission/Handler         the same file: post_submit
--   Submission/Persist         the same file: the three ways in which post_submit stores
--   Submission/Attempts        the same file: a sequence of submissions
--   Webhook                    src/services/webhook.rs: build_payload
--   Webhook/Address, Delivery  the same file: is_safe_url, is_safe_ip, deliver_once
--   Admin                      src/routes/admin.rs: the tables, and who may read and write them
--   Admin/Forms, Admin/Copies  the same file: update_form, set_view_permission; duplicate_form
--   Admin/Removal              the same file: delete_form, delete_response, delete_all_responses
--   Admin/RoleConfigs          the same file: role_config_save, verify_iframe_entry
--   RoleLogic                  src/services/rolelogic.rs: the calls, and the meaning of their failures
--   RoleLogic/Upload           the same file: upload_users
--   Json, Text, Prelude        the values of serde_json, the operations of str, and the shared
--                              tests, lists, integers and results
--   Tests                      concrete data and the theorems at work on it
-- The proofs stand in the child modules named for what they show.
--
-- State: the tables that the synchronisation reads and writes are one record, Db, and each
-- operation gives the tables after it with its result. The queue is a list of rows in the order
-- of their ids. A message that the program builds is a constructor with what it names.
--
-- A handler gives the tables after it with its reply, or an error and no tables, as its transaction
-- is rolled back; the requests follow one another. The tables of the submission are Store, those of
-- the administration Tables. A form is kept under the canonical spelling of its id.
--
-- Integers: i32 and i64 values are signed integers over the native numbers; additions that
-- saturate in the source saturate here, the cast of a negative i64 to usize wraps at 2 ^ 64, and
-- the counts of a job, its id and its attempts, are natural numbers that do not wrap. Retry times
-- are nanoseconds, queue times milliseconds. Loops are structural recursions over their lists, and
-- the draw of a slug over the five attempts of the source; the one fuel is that of the decimal
-- printing of an i64, twenty digits, and no i64 has more.
--
-- Parameters: f64, serde_json's Number, regular expressions, the parsing and order of dates,
-- to_lowercase and the equality of jsonb are the record Host of Json. The auth gateway and
-- RoleLogic are the record Remote of Sync, whose calls answer alike for the same arguments; the
-- reading of a stored condition by serde is the argument from_value. The clock, the jitter, the
-- rows that another transaction has locked, the answer of a performed job and the wording of a
-- stored failure are arguments of the operations that use them. HMAC and the coding of addresses
-- are the record Crypto, the decoding of a RoleLogic token JwtHost, the configuration with the
-- fetching of a member's guilds and the reading of a schema Service; AdminService adds the reading
-- of a UUID and the answers of the auth gateway, UrlHost the parsing of addresses, and Network the
-- look-up of names and the POST, and Client the transport to RoleLogic, which may answer by all that
-- was sent before. New ids and the slugs that are drawn are arguments; the several readings of the
-- clock in one request agree.
--
-- Not modelled: the pages and their HTML, the templates, listings and exports of the administration,
-- the shuffle of a schema, the routes of the plugin, of the picker and of the respondents, the
-- client of the auth gateway, start-up and shutdown, a database that fails, and the interleaving of
-- the ten concurrent actions of sync_for_player, which run in sequence here.
pub mod Prelude
pub mod Text
pub mod Json
pub mod Models
pub mod Eval
pub mod Retry
pub mod RoleConfig
pub mod Jobs
pub mod Errors
pub mod Worker
pub mod Sync
pub mod Tokens
pub mod Guards
pub mod Webhook
pub mod Submission
pub mod Admin
pub mod RoleLogic
pub mod Validator
pub mod Tests
