-- ===== src/Review/Schedule.antt =====
-- What a session's errors do to the schedule: a function of each error type alone, whatever the
-- order in which the set is run through, and all of it or nothing.
use apm.Shared.{
  ℕ, ◌≡◌, ◌⊎◌, refl, sym, ◌∙◌, Bool, true, false, not, ◌&&◌, List, [], ◌∷◌, ◌++◌, Option, none,
  some, String, ◌==◌, ==_iff, arith, if◌then◌else◌, UserKey, user_key_instance, string_eq, inl, inr,
}
use apm.Shared.Dict.{Dict, lookup}
use mathlib.Core.Path.{subst}
use apm.Database.{Error, commit, rollback_on_error, database_error, Db, Result, ok, err, IsClean}
use apm.Review.{ReviewState, on_error_seen, on_error_absent}
use apm.Review.Service.{Items, types_of, keys, to_state, new_state, record_all, record_session}
use apm.Review.Recording.{
  elem, elem-append, elem-types_of, elem-keys, after, Recorded, record_all-Recorded,
}

-- What a session does to one error type, read off the old row and the session's corrections.
abbrev pub advance : Dict String String → ℕ → String → Option ReviewState → Option ReviewState
advance seen now t old = elim (lookup t seen) [
  | some correction ↦ some (on_error_seen (to_state old) correction now)
  | none ↦ elim old [ none ↦ none | some s ↦ some (on_error_absent s now) ]
]

module _ (is_blank : String → Bool) (order : List String → List String) where
  -- A set is run through in some order: its members are those of the list.
  abbrev pub IsOrder : Type 0
  IsOrder = (t : String) (xs : List String) → elem t (order xs) ≡ elem t xs

  abbrev pub Scheduled :
      ℕ → Dict String String → ℕ → Db Items → Result (Unit {0}) × Db Items → Type 0
  Scheduled user seen now db (ok _, db') =
      (k : UserKey)
      → lookup k db'.committed ≡ (
          if (user == k.0) && not (is_blank k.1)
          then advance seen now k.1 (lookup k db.committed)
          else lookup k db.committed)
  Scheduled user seen now db (err _, db') = db'.committed ≡ db.committed

  -- One row, from what the loop wrote to what the session is meant to do.
  after-advance :
      (user : ℕ) (d : Items) (seen : Dict String String) (now : ℕ) (k : UserKey)
      → IsOrder
      → after is_blank user d seen now (order (types_of user d ++ keys seen)) d k ≡ (
          if (user == k.0) && not (is_blank k.1)
          then advance seen now k.1 (lookup k d)
          else lookup k d)
  unfolding new_state
  after-advance user d seen now k same = ground (
    arith,
    same k.1 (types_of user d ++ keys seen),
    elem-append k.1 (types_of user d) (keys seen),
    elem-types_of user k.1 d,
    elem-keys k.1 seen,
    ==_iff user k.0,
  )

  module _ (user : ℕ) (seen : Dict String String) (now : ℕ) where
    Scheduled-ok :
        (db : Db Items) (res : Result (Unit {0}) × Db Items)
        → res.0 ≡ ok tt
        → ((k : UserKey)
            → lookup k res.1.committed ≡ (
                if (user == k.0) && not (is_blank k.1)
                then advance seen now k.1 (lookup k db.committed)
                else lookup k db.committed))
        → Scheduled user seen now db res
    Scheduled-ok db (ok u, db') e h = h
    Scheduled-ok db (err x, db') e h = absurd (cc)

    Scheduled-err :
        (db : Db Items) (x : Error) (res : Result (Unit {0}) × Db Items)
        → res.0 ≡ err x
        → res.1.committed ≡ db.committed
        → Scheduled user seen now db res
    Scheduled-err db x (ok u, db') e h = absurd (cc)
    Scheduled-err db x (err y, db') e h = h

    -- The end of the transaction.
    settle : Result (Unit {0}) × Db Items → Result (Unit {0}) × Db Items
    settle (ok u, db) = rollback_on_error commit db
    settle (err x, db) = (err x, record db { working = db.committed })

    settle-cases :
        (db : Db Items)
        → ((settle (ok tt, db)).0 ≡ ok tt) × ((settle (ok tt, db)).1.committed ≡ db.working)
          ⊎ ((settle (ok tt, db)).0 ≡ err database_error)
            × ((settle (ok tt, db)).1.committed ≡ db.committed)
    unfolding settle
    settle-cases db = ground arith

    Scheduled-of_Recorded :
        (ts : List String) (d : Items) (db db1 : Db Items) (res : Result (Unit {0}) × Db Items)
        → db.committed ≡ d
        → db1.working ≡ d
        → db1.committed ≡ d
        → ((k : UserKey)
            → after is_blank user d seen now ts d k ≡ (
                if (user == k.0) && not (is_blank k.1)
                then advance seen now k.1 (lookup k d)
                else lookup k d))
        → Recorded is_blank user d seen now ts db1 res
        → Scheduled user seen now db (settle res)
    Scheduled-of_Recorded ts d db db1 (err x, db') e w c a h =
        Scheduled-err db x _ (unfold settle in refl) (unfold settle in h ∙ c ∙ sym e)
    Scheduled-of_Recorded ts d db db1 (ok tt, db') e w c a h = elim (settle-cases db') [
      | inl (fine, same) ↦ Scheduled-ok db _ fine (λ k. rw (same, h.1 k, w, e) (a k))
      | inr (failed, same) ↦ Scheduled-err db database_error _ failed (same ∙ h.0 ∙ c ∙ sym e)
    ]

    record_session-settle :
        (db : Db Items)
        → IsClean db
        → (record_session is_blank order user seen now db).1.committed ≡ db.committed
            × ((record_session is_blank order user seen now db).0 ≡ err database_error)
          ⊎ ((fs : List Bool) × (record_session is_blank order user seen now db
                ≡ settle (
                    record_all is_blank user db.committed seen now
                      (order (types_of user db.committed ++ keys seen))
                      (record db { faults = fs }))))
    unfolding record_session settle
    record_session-settle db clean = go db.faults refl
      where
        go :
            (fs : List Bool)
            → db.faults ≡ fs
            → (record_session is_blank order user seen now db).1.committed ≡ db.committed
                × ((record_session is_blank order user seen now db).0 ≡ err database_error)
              ⊎ ((fs' : List Bool) × (record_session is_blank order user seen now db
                    ≡ settle (
                        record_all is_blank user db.committed seen now
                          (order (types_of user db.committed ++ keys seen))
                          (record db { faults = fs' }))))
        go [] f = inr ([], ground arith)
        go (true ∷ fs) f = inl (ground arith, ground arith)
        go (false ∷ fs) f = inr (fs, ground arith)

    -- Whatever statement fails and in whatever order Python runs through the set of types: if
    -- `record_session` returns, every type of the user that is not blank was moved by its own
    -- correction, or as clean if it had a row, and all else is as it was; if it raises, nothing was
    -- committed.
    pub record_session-Scheduled :
        (db : Db Items)
        → IsOrder
        → IsClean db
        → Scheduled user seen now db (record_session is_blank order user seen now db)
    record_session-Scheduled db same clean = elim (record_session-settle db clean) [
      | inl (kept, failed) ↦ Scheduled-err db database_error _ failed kept
      | inr (fs, e) ↦
          let d = db.committed in
          let ts = order (types_of user d ++ keys seen) in
          subst (Scheduled user seen now db) (sym e) (
            Scheduled-of_Recorded ts d db (record db { faults = fs }) _ refl clean refl
              (λ k. after-advance user d seen now k same)
              (record_all-Recorded is_blank user d seen now ts (record db { faults = fs })))
    ]
