-- ===== src/Conversation/Retries.antt =====
-- A streamed turn and its retry, `event_stream` of backend/app/features/conversation/router.py: the
-- idempotency key of a turn and the turn lock after the stream.
use apm.Shared.{
  ℕ, ◌≡◌, ◌≢◌, ◌⊎◌, refl, sym, ap, ◌∙◌, Bool, true, false, inl, inr, List, none, some, String,
  arith, user_key_instance,
}
use mathlib.Core.Path.{subst}
use apm.Shared.Dict.{lookup, erase, IsDistinct, lookup-erase_self, erase-IsDistinct}
use apm.Database.{Db, Result, ok, err, Error}
use apm.Sessions.Repository.{Tables, Message}
use apm.Conversation.Prompt.{join, is_empty}
use apm.Conversation.Prepare.{TurnConfig, PreparedTurn, persist}
use apm.Conversation.Stream.{Ending, returned, raised, gone, Stage, Providers}
use apm.Conversation.Delivery.{texts_of}
use apm.Conversation.Settlement.{Kept, keys_after}
use apm.Conversation.Promises.{released, stream_prepared-Settled}
use apm.Conversation.Frames.{said_in, said_by, said_in-close_stream}
use apm.Idempotency.Keys.{complete-IsDistinct, lookup_response-erase_ne}
use apm.Conversation.Route.{
  Frame, Response, streamed, frames_of, ClaimFaults, complete_unless, on_persisted, try_release,
  end_in_error, close_stream, unlock_unless, run_stream, event_stream,
}
use apm.Idempotency.{Key, Claims, lookup_response, release, release_turn_lock}
use apm.Idempotency.Replay.{Answered, Pending, complete-Answered}

-- No answer is stored for a key.
abbrev pub Unanswered : Key → Claims → Type 0
Unanswered k d = (lookup_response k d).1 ≡ none

module _ (f : ClaimFaults) (io : Providers) (cfg : TurnConfig) (now : ℕ) (p : PreparedTurn)
    (k : String) (db : Db Tables) (d : Claims) where
  -- The write of a reply of these sentences.
  abbrev pub written : List String → Result (List Message) × Db Tables
  written sent = persist cfg p (join " " sent) none now (released cfg db)

  -- The key of a turn that was written: answered with the reply, unless the completion failed.
  abbrev pub Completed : List String → Claims → Type 0
  Completed sent after =
      Answered (p.user.id, k) (join " " sent) after
      ⊎ ((f.complete_fails ≡ true) × Unanswered (p.user.id, k) after)

  -- The write of just what was sent returned, and the key says so; or it has no answer, and nothing was
  -- written or the write raised.
  abbrev pub Agrees : List String → Db Tables → Claims → Type 0
  Agrees sent db' after =
      (((turns : List Message) × ((written sent).0 ≡ ok turns))
        × (db' ≡ (written sent).1)
        × Completed sent after)
      ⊎ (Unanswered (p.user.id, k) after
          × ((db' ≡ released cfg db)
              ⊎ (((e : Error) × ((written sent).0 ≡ err e)) × (db' ≡ (written sent).1))))

  module _ (pending : Pending (p.user.id, k) d) (distinct : IsDistinct d)
      (given : is_empty k ≡ false) where
    abbrev Stream : Type 0
    Stream = Ending (Unit {0}) × Stage (Claims × Bool)

    abbrev Unfinished : Claims → Type 0
    Unfinished after = Unanswered (p.user.id, k) after × IsDistinct after

    still_pending : Unfinished d
    unfolding lookup_response
    still_pending = (ap (λ r. r.1) pending, distinct)

    after_error :
        (frames : List Frame) (e : Error) (fails : Bool)
        → f.release_fails ≡ fails
        → Unfinished (end_in_error frames e d (try_release f p.user.id (some k) d)).1
    unfolding lookup_response release
    after_error frames e true q = rw (given, q) still_pending
    after_error frames e false q =
        rw (given, q)
          (
            ground (arith, lookup-erase_self (p.user.id, k) d distinct),
            erase-IsDistinct (p.user.id, k) d distinct,
          )

    closed_untouched :
        (res : Stream)
        → res.1.keys ≡ (d, false)
        → Unfinished (close_stream f p.user.id (some k) res).1
    closed_untouched (returned u, st) e = rw e still_pending
    closed_untouched (raised x, st) e =
        rw e (after_error (frames_of st.events) x f.release_fails refl)
    closed_untouched (gone, st) e = rw e still_pending

    closed_completed :
        (res : Stream) (after : Claims)
        → res.1.keys ≡ (after, true)
        → (close_stream f p.user.id (some k) res).1 ≡ after
    closed_completed (returned u, st) after e = ap (λ q. q.0) e
    closed_completed (raised x, st) after e = rw e refl
    closed_completed (gone, st) after e = ap (λ q. q.0) e

    complete_unless-Completed :
        (sent : List String) (fails : Bool)
        → f.complete_fails ≡ fails
        → let after = complete_unless f.complete_fails p.user.id (some k) (join " " sent) d in
          Completed sent after × IsDistinct after
    complete_unless-Completed sent true q = rw q (inr (refl, still_pending.0), distinct)
    complete_unless-Completed sent false q =
        rw (q, given)
          (
            inl (complete-Answered (p.user.id, k) (join " " sent) d pending),
            complete-IsDistinct (p.user.id, k) (join " " sent) d distinct,
          )

    -- What the keys are when the stream has ended.
    abbrev Ended : List Bool → Stream → Type 0
    Ended leaves res =
        ((res.1.db ≡ released cfg db) × (res.1.keys ≡ (d, false)))
        ⊎ Kept io p cfg now (some (on_persisted f p.user.id (some k))) (released cfg db) (d, false)
            leaves res.1

    told_Agrees :
        (res : Stream) (w : Result (List Message) × Db Tables) (sent : List String)
        → written sent ≡ w
        → res.1.db ≡ w.1
        → res.1.keys
          ≡ keys_after (some (on_persisted f p.user.id (some k))) w.0 (join " " sent) (d, false)
        → let after = (close_stream f p.user.id (some k) res).1 in
          Agrees sent res.1.db after × IsDistinct after
    told_Agrees res (ok turns, db') sent w e q =
        let c = complete_unless-Completed sent f.complete_fails refl in
        let after = sym (closed_completed res _ q) in
        (
          inl (
            (turns, ap (λ x. x.0) w),
            e ∙ sym (ap (λ x. x.1) w),
            subst (Completed sent) after c.0,
          ),
          subst IsDistinct after c.1,
        )
    told_Agrees res (err x, db') sent w e q =
        let u = closed_untouched res q in
        (inr (u.0, inr ((x, ap (λ y. y.0) w), e ∙ sym (ap (λ y. y.1) w))), u.1)

    Ended-Agrees :
        (leaves : List Bool) (res : Stream)
        → Ended leaves res
        → let after = (close_stream f p.user.id (some k) res).1 in
          Agrees res.1.parts res.1.db after × IsDistinct after
    Ended-Agrees leaves res (inl (e, q)) = let u = closed_untouched res q in (inr (u.0, inl e), u.1)
    Ended-Agrees leaves res (inr (e, q)) =
        told_Agrees res (written res.1.parts) res.1.parts refl e q

    same_completion :
        (sent : List String) (a b : Claims)
        → lookup_response (p.user.id, k) b ≡ lookup_response (p.user.id, k) a
        → Completed sent a
        → Completed sent b
    same_completion sent a b h (inl q) = inl (h ∙ q)
    same_completion sent a b h (inr (t, q)) = inr (t, ap (λ x. x.1) h ∙ q)

    same_answer :
        (sent : List String) (db' : Db Tables) (a b : Claims)
        → lookup_response (p.user.id, k) b ≡ lookup_response (p.user.id, k) a
        → Agrees sent db' a
        → Agrees sent db' b
    same_answer sent db' a b h (inl (t, e, q)) = inl (t, e, same_completion sent a b h q)
    same_answer sent db' a b h (inr (u, r)) = inr (ap (λ x. x.1) h ∙ u, r)

    module _ (lock_key : ℕ → String) (leaves : List Bool) where
      abbrev pub after_stream : Response × (Db Tables × Claims)
      after_stream = event_stream f lock_key io cfg now (some k) p leaves (db, d)

      abbrev streamed_as : Stream → Response × (Db Tables × Claims)
      streamed_as res =
          let c = close_stream f p.user.id (some k) res in
          (
            streamed c.0,
            (res.1.db, unlock_unless f.unlock_fails lock_key p.user.id p.session_id c.1),
          )

      after_stream_lem :
          after_stream ≡ streamed_as (run_stream f lock_key io cfg now (some k) p leaves (db, d))
      unfolding event_stream
      after_stream_lem = refl

      -- The lock is freed, unless that failed.
      abbrev pub IsUnlocked : Claims → Type 0
      IsUnlocked after =
          (lookup (p.user.id, lock_key p.session_id) after ≡ none) ⊎ (f.unlock_fails ≡ true)

      abbrev Freed : Response × (Db Tables × Claims) → Type 0
      Freed r = Agrees (said_by r.0) r.1.0 r.1.1 × IsUnlocked r.1.1

      unlock_unless-Agrees :
          (sent : List String) (db' : Db Tables) (after : Claims) (fails : Bool)
          → lock_key p.session_id ≢ k
          → f.unlock_fails ≡ fails
          → Agrees sent db' after
          → IsDistinct after
          → let last = unlock_unless f.unlock_fails lock_key p.user.id p.session_id after in
            Agrees sent db' last × IsUnlocked last
      unfolding release_turn_lock release
      unlock_unless-Agrees sent db' after true other q a n = rw q (a, inr refl)
      unlock_unless-Agrees sent db' after false other q a n =
          let lock : Key = (p.user.id, lock_key p.session_id) in
          rw q (
            same_answer sent db' after (erase lock after)
                (lookup_response-erase_ne lock (p.user.id, k) after (λ e. other (ap (λ x. x.1) e)))
                a,
            inl (lookup-erase_self lock after n),
          )

      Ended-Freed :
          lock_key p.session_id ≢ k
          → (res : Stream) → texts_of res.1.events ≡ res.1.parts
          → Ended leaves res
          → Freed (streamed_as res)
      Ended-Freed other res t h =
          let c = close_stream f p.user.id (some k) res in
          let a = Ended-Agrees leaves res h in
          unlock_unless-Agrees (said_in c.0) res.1.db c.1 f.unlock_fails other refl
            (subst (λ sent. Agrees sent res.1.db c.1)
              (sym (said_in-close_stream f p.user.id (some k) res ∙ t)) a.0)
            a.1

      -- However a streamed turn with a claimed key ends, its lock is freed unless that fails, and either the
      -- write of the sentences of the response as one reply returned and the key is answered with it
      -- unless that fails, or the key has no answer and nothing was written or the write raised. The
      -- key is not empty, is pending and is not the lock's, and no key stands twice in the table.
      pub event_stream-Agrees :
          lock_key p.session_id ≢ k
          → Agrees (said_by after_stream.0) after_stream.1.0 after_stream.1.1
            × IsUnlocked after_stream.1.1
      event_stream-Agrees other =
          let s =
            stream_prepared-Settled io p cfg now (some (on_persisted f p.user.id (some k))) db
              (d, false) leaves in
          subst Freed (sym after_stream_lem) (Ended-Freed other _ s.0 s.3)
