-- ===== src/Lib.antt =====
-- A model of chic, a Telegram bot that answers questions about a MoySklad account.
--
-- Messages reach the bot through a webhook (telegram), go to an agent (agent) that keeps
-- conversations in a store (store) and calls read-only tools; the tools fetch rows of the MoySklad
-- API through a caching client (cache over moysklad) and turn them into reports and analyses
-- (aggregate). A daily job captures stock and sales into a local history (history); another sends a
-- digest (jobs).
--
-- Telegram: chic/telegram. Dedupe is the ring of update ids, Keyboards the buttons and their callback
--   data, Render the split of long answers, Photo the download of a photo, and Bot the handlers,
--   the allowlist, the router and `feed_update`, over the agent's limiter and the store.
-- Moysklad: chic/moysklad. Errors (`parse_api_error`), Dates (`normalize_moment`), Options (query
--   parameters), Documents (document types), Models (rows of the API), Client.Transport (`_do_get`
--   with its retries), Client.Pages (`_paginate`) and Client.Endpoints (what each method sends).
-- Cache: chic/cache. Store is the table with expiry, Client is `_cached`, Client.Calls the request
--   behind each of its methods.
-- History: chic/history. Days are the windows of days, Store is `HistoryStore`, Snapshot the capture.
-- Aggregate: chic/aggregate. Money (rounding), Models (lines and totals), Envelope (`truncate` and
--   the report record), Report (report.py), Analytics (analytics.py), Document (document.py), Bridge
--   (bridge.py) and Purchase (purchase.py).
-- Store: chic/store/db.py, the tables as lists in the order of insertion.
-- Agent: chic/agent/agent.py. Rate is `_RateLimiter`, History `_condense_history`, Summary
--   `_summarize_into`, Memory `_remember` with the consolidation of preferences, Turn `handle`;
--   Guardrail is agent/guardrail.py: Spans and Scan its two regular expressions, Check the check.
-- Jobs: chic/jobs and chic/scheduler.py. Schedule holds the entries, Scheduler the class over an
--   interface of APScheduler, Digest the morning digest, Snapshot the daily capture.
-- Usecases: chic/usecases.py, where the tools' fetches and computations meet.
-- Prelude holds lists, integers, dictionaries, sets, sorting, text and JSON for all of them.
--
-- State is passed from one operation to the next; an exception is `none` or a value of its own.
-- What the HTTP library, SQLite, the language model, Telegram and the API answer is an argument, and
-- so are `json.loads`, the text of a JSON value and the conversion to MarkdownV2. SQLite tables
-- are dictionaries by primary key; orders that SQLite gives to texts are arguments.
--
-- Numbers. A float of the source is an exact decimal: in Aggregate a number of steps of 1/`one`, in
-- Bridge of 1/`cent` of a hundredth, in History of any type `N`. Amounts with two places are numbers
-- of hundredths. The rounding errors of binary floats are not modelled. Dates are ordinals, moments
-- seconds, waits milliseconds.
--
-- Loops are structural recursion. Fuel stands in `days_from` and `gaps_from`, which get as much as
-- the days they may meet; in the two `chunks`, `blank_spans` and `scan`, which get the length of their
-- list or text; in the digits of `show`, which get one more than the number; and in `paginate`, where
-- the number of rows and one more is enough.
--
-- Where the bot is wider or narrower than the source: aiogram asks the allowlist only for a message
-- or a press that a handler takes, the model for every one; of the exceptions that sending a text
-- may raise, only Telegram's rejection of the text is modelled, and a cron text is taken to be valid.
--
-- Not modelled: wiring, tracing, migrations, engines, asynchronous tasks and their interleaving,
-- prompts, the MCP tools and demand statistics.
pub mod Prelude
pub mod Telegram
pub mod Moysklad
pub mod Cache
pub mod Aggregate
pub mod Store
pub mod Agent
pub mod History
pub mod Jobs
pub mod Usecases
