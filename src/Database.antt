-- ===== src/Database.antt =====
-- The database as the services see it through one SQLAlchemy session: what is committed, what the
-- open transaction has written so far, and the statements that will fail. The session and the
-- server are not code of the repository; what is used of them is their documented behaviour:
-- `commit` publishes the transaction's writes, `rollback` drops them, a failed statement raises.
pub mod Models
use apm.Shared.{◌≡◌, Bool, true, false, List, [], ◌∷◌, String, Option, none, some}

-- backend/app/domain/exceptions.py, with the message of each; `database_error` is what a failed
-- statement raises, `integrity_error` a violated uniqueness constraint, `provider_error` what a call
-- of a provider raises, and `value_error` and `runtime_error` Python's own.
pub data Error : Type 0 where
  not_found conflict email_already_exists invalid_credentials : String → Error
  authentication authorization quota_exhausted active_session_exists : String → Error
  invalid_refresh_token rate_limited validation payload_too_large : String → Error
  debrief_analysis llm_provider : String → Error
  database_error integrity_error provider_error value_error runtime_error : Error

pub data Result (A : Type 0) : Type 0 where
  ok : A → Result A
  err : Error → Result A

-- `faults` holds one entry for each write statement to come: `true` makes that statement fail.
-- Past its end no statement fails.
pub record Db (T : Type 0) : Type 0 where
  pub committed : T
  pub working : T
  pub faults : List Bool

-- A coroutine that runs on the session: it returns or raises, and leaves the session behind.
abbrev pub Action : Type 0 → Type 0 → Type 0
Action T A = Db T → Result A × Db T

module _ {T : Type 0} where
  abbrev pub pure : {A : Type 0} → A → Action T A
  pure a db = (ok a, db)

  abbrev pub raise : {A : Type 0} → Error → Action T A
  raise e db = (err e, db)

  infixl 5 ◌>>=◌ ◌>>◌
  abbrev pub ◌>>=◌ : {A B : Type 0} → Action T A → (A → Action T B) → Action T B
  ◌>>=◌ m f db = let (r, db') = m db in elim r [ ok a ↦ f a db' | err e ↦ (err e, db') ]

  abbrev pub ◌>>◌ : {A B : Type 0} → Action T A → Action T B → Action T B
  m >> k = m >>= λ _. k

  -- A read of the session's view of the tables.
  abbrev pub gets : {A : Type 0} → (T → A) → Action T A
  gets f db = (ok (f db.working), db)

  -- A change of loaded objects: nothing is sent to the server yet.
  abbrev pub modify : (T → T) → Action T (Unit {0})
  modify f db = (ok tt, record db { working = f db.working })

  abbrev take_fault : List Bool → Db T → Result (Unit {0}) × Db T
  take_fault [] db = (ok tt, db)
  take_fault (true ∷ fs) db = (err database_error, record db { faults = fs })
  take_fault (false ∷ fs) db = (ok tt, record db { faults = fs })

  -- One write statement (`execute`, `flush`, `commit`) reaches the server, or fails.
  abbrev pub statement : Action T (Unit {0})
  statement db = take_fault db.faults db

  abbrev publish : Action T (Unit {0})
  publish db = (ok tt, record db { committed = db.working })

  -- `await session.commit()`
  abbrev pub commit : Action T (Unit {0})
  commit = statement >> publish

  -- `await session.rollback()`
  abbrev pub rollback : Action T (Unit {0})
  rollback db = (ok tt, record db { working = db.committed })

  -- `if commit: await session.commit() else: await session.flush()`
  abbrev pub commit_or_flush : Bool → Action T (Unit {0})
  commit_or_flush true = commit
  commit_or_flush false = statement

  -- `try: m  except Exception: await rollback(); raise`
  abbrev pub rollback_on_error : {A : Type 0} → Action T A → Action T A
  rollback_on_error m db =
      let (r, db') = m db in
      elim r [ ok a ↦ (ok a, db') | err e ↦ (err e, record db' { working = db'.committed }) ]

  abbrev pub or_raise : {A : Type 0} → Option A → Error → Action T A
  or_raise none e = raise e
  or_raise (some a) _ = pure a

  abbrev pub raise_if : Bool → Error → Action T (Unit {0})
  raise_if true e = raise e
  raise_if false e = pure tt

  -- At the start of a request nothing is pending.
  abbrev pub IsClean : Db T → Type 0
  IsClean db = db.working ≡ db.committed
