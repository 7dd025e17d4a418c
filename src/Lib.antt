-- ===== src/Lib.antt =====
-- APM ("Anglais Pour Moi") is a backend for learning spoken English: accounts with refresh tokens,
-- metered conversation sessions, idempotent replay of requests made offline, habit streaks, spaced
-- repetition of mistakes, and the services round the language and speech providers. This library
-- models the core logic of backend/app and proves what makes it correct.
--
-- The parts, and where they are modelled:
--   Clock: instants in microseconds, days as ordinals, naive and aware `datetime`s.
--   Database, Database.Models: domain/exceptions.py, the columns of the models, and one database
--     session as its users see it: committed data, the data of the open transaction, and a list
--     that says which of the next write statements fails. `commit`, `flush`, `rollback` are actions.
--   Auth: features/auth/repository.py (Auth.Repository), service.py (Auth.Service: registration,
--     login, rotation, logout; Auth.Account: passwords, resets, activation), core/security.py.
--     Auth.Rotation, Auth.Tokens and Auth.Passwords hold the proofs.
--   Sessions: features/sessions/repository.py and ownership.py (Sessions.Repository), service.py
--     (Sessions.Service), activity.py and the clamp of offline instants (Sessions.Activity),
--     core/quota.py (Sessions.Quota). Sessions.Invariant, Start, Turns and Metering hold the proofs.
--     A session charges the user's quota and registers an active day in Streaks.
--   Idempotency: features/idempotency/service.py and repository.py, with the turn lock.
--   Streaks: features/streaks/logic.py and service.py. Streaks.Days says what a streak is of the set of
--     active days.
--   Review: features/review/scheduler.py, service.py and the statements of repository.py.
--   RateLimit: core/rate_limit.py, in memory (RateLimit) and shared (RateLimit.Redis).
--   Speech: features/conversation/providers/tts_cache.py (in memory) and caching_tts.py.
--   Fallback: core/llm/providers/fallback.py.
--   Conversation: features/conversation/persist.py, the terminal write of a turn, with the meter of
--     Sessions; turn_service.py as Conversation.Prepare (the reads, the turn that does not stream) and
--     Conversation.Stream (the streaming generator); prompt.py and core/prompt_safety.py
--     (Conversation.Prompt); correction.py, features/profile/correction_style.py and core/llm_json.py
--     (Conversation.Correction); the streaming route of router.py (Conversation.Route), which ties
--     the generator to Idempotency. Preparing, Continuity, Delivery, Reading, Settlement, Outcome,
--     Promises, Stored, Frames, Retries and Remembered hold the proofs.
--   VoiceData: features/voice_data/repository.py: the erasure (VoiceData), the paged export
--     (VoiceData.Pages, VoiceData.Export). VoiceData.Rows has the models of the tables.
--   Debrief: features/debrief/service.py and repository.py (Debrief), analyzer.py, error_taxonomy.py
--     and parsing.py (Debrief.Analyzer). A debrief nudges the level of Progression, and Conversation
--     reads the memory that it stores. features/debrief/enrichment.py, which follows it, is
--     Debrief.Enrichment.
--   Purge: features/purge/task.py, the deletes of old rows and their commit, with the rows of
--     VoiceData. Purge.Retention holds the proof.
--   Pronunciation: features/pronunciation/scorer.py, against Shadowing.
--   Shadowing: features/shadowing/diff.py.
--   Progression: features/debrief/cefr.py and core/pagination.py.
--   Shared: lists, dictionaries in insertion order, tables of rows, integers.
--
-- How code corresponds to definitions: an operation keeps its name; a method that awaits the
-- database is an action on the tables (`Auth.Service.refresh` is `AuthService.refresh`). Each
-- reading of a clock and each random token is an argument. What other transactions commit between
-- two statements is an argument `others` or a `Moment`; where a row or advisory lock is held, none
-- is. Minutes are exact durations in place of floats, so no rounding is modelled. Loops are
-- structural recursion over lists, but for the loop over pages of an export, which has fuel: one more
-- than there are rows is enough, as is proved. An asynchronous generator is a sequence of steps that
-- emit events, and its reader may leave at any of them. Reads of the database do not fail, and an
-- exception that ends a response after its start is where its frames end. Python's text functions, hashing, signing,
-- the regular expressions, JSON and the providers are parameters.
--
-- Not modelled: the other HTTP routes, schemas and middleware, configuration, logging and metrics,
-- the SQL engine itself, the calls of the speech and language services, the history page of sessions,
-- the lock of the purge, billing, missions, onboarding, vocabulary, proofs of progress, and the mobile
-- application.
pub mod Shared
pub mod Clock
pub mod Streaks
pub mod Database
pub mod Auth
pub mod Sessions
pub mod Idempotency
pub mod Review
pub mod RateLimit
pub mod Speech
pub mod Fallback
pub mod Conversation
pub mod Shadowing
pub mod Pronunciation
pub mod Progression
pub mod VoiceData
pub mod Debrief
pub mod Purge
