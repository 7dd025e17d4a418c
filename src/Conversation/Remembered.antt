-- ===== src/Conversation/Remembered.antt =====
-- What a streamed turn leaves for its retry, with the meter of the program: the transcript, the
-- idempotency key and the turn lock after `event_stream` of
-- backend/app/features/conversation/router.py.
use apm.Shared.{
  ℕ, ◌≡◌, ◌≢◌, ◌⊎◌, sym, ap, ◌∙◌, Bool, false, inl, inr, List, some, String, user_key_instance,
}
use apm.Shared.Dict.{IsDistinct}
use apm.Database.{Db, ok, err}
use apm.Database.Models.{ConversationSession}
use apm.Sessions.Repository.{Tables}
use apm.Sessions.Service.{Config}
use apm.Conversation.Prompt.{join, is_empty}
use apm.Conversation.Prepare.{TurnConfig, PreparedTurn}
use apm.Conversation.Stream.{Providers}
use apm.Conversation.Stored.{IsLive, transcript_in, exchange, persist_stored, released-committed}
use apm.Conversation.Frames.{said_by}
use apm.Conversation.Route.{ClaimFaults, event_stream}
use apm.Conversation.Retries.{Unanswered, Completed, Agrees, IsUnlocked, event_stream-Agrees}
use apm.Idempotency.{Claims}
use apm.Idempotency.Replay.{Pending}

module _ (f : ClaimFaults) (io : Providers) (mc : Config) (cfg : TurnConfig) (now : ℕ)
    (p : PreparedTurn) (k : String) (db : Db Tables) (d : Claims) (s : ConversationSession)
    (live : IsLive mc cfg p db s) where
  -- The exchange is committed and the key says so; or nothing is committed and it has no answer.
  abbrev pub Remembered : List String → Db Tables → Claims → Type 0
  Remembered sent db' after =
      ((transcript_in mc cfg p now db s live db'.committed
          ≡ some (exchange mc cfg p now db s live (join " " sent)))
        × Completed f io cfg now p k db d sent after)
      ⊎ ((db'.committed ≡ db.committed) × Unanswered (p.user.id, k) after)

  Agrees-Remembered :
      (sent : List String) (db' : Db Tables) (after : Claims)
      → Agrees f io cfg now p k db d sent db' after
      → Remembered sent db' after
  Agrees-Remembered sent db' after (inl (t, e, c)) = inl (
    ap (λ x. transcript_in mc cfg p now db s live x.committed) e
        ∙ (persist_stored mc cfg p now db s live (join " " sent)).1,
    c,
  )
  Agrees-Remembered sent db' after (inr (u, inl e)) =
      inr (ap (λ x. x.committed) e ∙ (released-committed mc cfg p now db s live).0, u)
  Agrees-Remembered sent db' after (inr (u, inr ((x, r), e))) = absurd (
      let stored = (persist_stored mc cfg p now db s live (join " " sent)).0 in
      let y : err x ≡ ok (exchange mc cfg p now db s live (join " " sent)) = sym r ∙ stored in cc)

  module _ (pending : Pending (p.user.id, k) d) (distinct : IsDistinct d)
      (given : is_empty k ≡ false) (lock_key : ℕ → String) (leaves : List Bool) where
    -- However a streamed turn with a claimed key ends, its lock is freed unless that fails, and either the
    -- transcript of the session is committed with the exchange of just the sentences of the response, and
    -- the key is answered with them unless that fails, or nothing is committed and the key has no
    -- answer. The session is the user's and in progress, the program's meter is wired and no statement on
    -- the tables fails; the key is not empty, is pending and is not the lock's, and no key stands twice
    -- among the claims.
    pub event_stream-Remembered :
        lock_key p.session_id ≢ k
        → let after = event_stream f lock_key io cfg now (some k) p leaves (db, d) in
          Remembered (said_by after.0) after.1.0 after.1.1
          × IsUnlocked f io cfg now p k db d pending distinct given lock_key leaves after.1.1
    event_stream-Remembered other =
        let after = event_stream f lock_key io cfg now (some k) p leaves (db, d) in
        let a =
          event_stream-Agrees f io cfg now p k db d pending distinct given lock_key leaves other in
        (Agrees-Remembered (said_by after.0) after.1.0 after.1.1 a.0, a.1)
