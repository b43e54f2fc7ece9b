-- ===== src/Lib.antt =====
-- A model of the backend of Novatip and its theorems. The backend turns the events of a tip
-- contract into rows (src/indexer), lets creators sign in (src/modules/auth) and manage their
-- slugs (src/modules/creator), delivers tips to the webhooks of creators (src/modules/webhooks),
-- and serves feeds and figures of tips and notifications (src/modules/analytics,
-- src/modules/notifications).
--
-- The parts, and the files that model them:
-- - Prelude: Boolean tests, lists, tables with a key, texts as code points, results that may be
--   thrown, and async functions as functions of a state.
-- - Store: the tables of prisma/schema.prisma as records and lists. Redis: a key store with
--   expiry, as an interface whose laws are the documented ones of SET, GET and DEL.
-- - Indexer: src/indexer. Cursor has planBatch, planIdleAdvance, isIdleCheckDue and
--   isSaturatedLedger of cursor.ts; Backoff has calculatePollBackoff of backoff.ts; Persist has
--   persistTip, updateCursor, readCursor and pruneUnownedTips of persist.ts; Poll has the body of
--   the loop of runLoop in indexer.ts, with handleEvent. What the RPC, the SDK, the clock and a
--   failing database answer in a turn is a value of Turn, and the laws that the RPC is relied on
--   for are IsHonest in Poll/Complete. An event of a ledger that fills a whole batch may be lost;
--   the loop warns about it. The tests of persistTip expect no row for a jar without a creator,
--   where the code stores one.
-- - Creator: src/modules/creator. Slug has the patterns and jar-id.ts, Table the constraints of
--   the table, Hold the holds on released slugs, Placeholders the sweep of
--   placeholder-retention.ts, Claim has claimSlug, renameSlug and isSlugAvailable on the
--   database, Service all functions with the profile cache and the token revocation of redis.ts.
-- - Webhooks: src/modules/webhooks. Queue has the module variables of the delivery queue as a
--   state and the functions that the event loop calls as steps; Delivery has dispatchWebhooks,
--   deliver, sendTestPing and the notification of failures, whose query and insertion are on states
--   of their own; Registry has the functions that
--   creators call, with limit.ts; Retention has retention.ts; Destination has webhook-url.ts, on
--   code points. The cipher, the signature, the resolver of names, the parser of URLs and the
--   request to a receiver are parameters, and for Delivery and Registry the check of a
--   destination, too.
-- - Feeds: Cursor has src/modules/analytics/cursor.ts, Select the query and the page that all
--   feeds share, Tips the feeds of src/modules/analytics/analytics.service.ts and
--   src/modules/creator/messages.service.ts, Notices the services of src/modules/notifications.
--   The ISO and base64url encodings and the order of text columns are parameters with documented
--   laws. The column messageHidden of Tip is in a migration, but not in schema.prisma.
-- - Analytics: the figures of src/modules/analytics. Collaborators has collaborators.ts; of
--   analytics.service.ts, Earnings has getCollaboratorEarnings, Series has getTotals and
--   getTimeSeries, Supporters has getTopSupporters, Csv has the CSV export, and Sql what their
--   raw queries share. Creator/SplitsSchema has the schema of the splits that are stored.
-- - SignIn: src/modules/auth with the nonces of redis.ts. Message has the text that a wallet
--   signs, Challenge has generateChallenge and verifyChallenge, Account the loop that creates the
--   record of a new wallet, Session has authenticate.ts. The SDK, the libraries for hashes and
--   signatures, and the one for tokens are parameters. A signature is one of the SEP-53 digest, as
--   in the code; sep53.test.ts also admits one of the raw nonce.
-- - Emails: src/modules/notifications/email.service.ts with src/utils/html.ts. Tip has
--   sendTipNotification, Digest has sendPendingTipDigests. What comes of an email is a parameter.
--   A stored amount is a number, so that the refusal of a malformed one has no counterpart.
-- - Tests: the theorems at concrete inputs.
--
-- The indexer hands each new tip to the webhooks, which queue a delivery for each target; the feeds
-- read the rows that the indexer wrote; retention deletes what the deliveries and the failures
-- left. The earnings read the splits that a claim stored; the deletion of a creator revokes the
-- tokens that the sign-in gave.
--
-- Loops are structural: over the rows that were read, over the budget of batches of a retention
-- run (50, as in the source), over the five attempts of the sign-in, and over the requests of a
-- client and the batches of the export, for which more rounds than rows are enough. Numbers are
-- natural numbers; a time is a number of milliseconds, and a cutoff before 1970 is 0, which no
-- stored time precedes. Ids of new rows are arguments.
--
-- Not modelled: the HTTP layer, configuration, the verification of email addresses, health,
-- metrics, the cipher of secrets, the timers, the byte limits of stored bodies, and
-- log output. Transactions run alone; where a check and its write can be apart, the write is
-- modelled on a state of its own. A failing database is modelled in a turn of the indexer and for
-- the row of a delivery; elsewhere a statement fails only by a constraint.
pub mod Prelude
pub mod Store
pub mod Redis
pub mod Indexer
pub mod Creator
pub mod Webhooks
pub mod Feeds
pub mod Analytics
pub mod SignIn
pub mod Emails
pub mod Tests
