-- ===== src/VoiceData/Others.antt =====
-- What an erasure leaves of other users, and what a second erasure does.
use apm.Shared.{
  ap, ℕ, ◌≡◌, not, ◌≢◌, refl, sym, ◌∙◌, true, false, Bool, ◌&&◌, List, [], ◌∷◌, String, arith, ◌==◌,
  ==_iff,
}
use mathlib.Core.Path.{subst}
use apm.Shared.Table.{
  update_where, delete_where, select_where, delete_where-none, update_where-none, count_where-none,
  NoRow-always,
}
use apm.Database.{Db, Result, ok, err}
use apm.VoiceData.{
  Statement, cascade, purge, is_session_of, is_in_sessions_of, has_stats, has_memory, without_stats,
  without_memory,
}
use apm.VoiceData.Rows.{VoiceTables}
use apm.VoiceData.Erasure.{counts, erased, NoVoice, no_sessions}
use apm.VoiceData.Promises.{
  reported, counts-reported, Erased, purge-Erased, emptied_of, purge-Emptied,
}

-- The rows of a table that satisfy a condition which a deletion or an update does not meet.
select-delete :
    {A : Type 0} (p q : A → Bool) (rs : List A)
    → ((r : A) → q r ≡ true → p r ≡ false)
    → select_where q (delete_where p rs) ≡ select_where q rs
select-delete p q [] h = refl
select-delete p q (x ∷ rs) h = ground (arith, h x, select-delete p q rs h)

select-update :
    {A : Type 0} (p q : A → Bool) (f : A → A) (rs : List A)
    → ((r : A) → q r ≡ true → p r ≡ false)
    → ((r : A) → q (f r) ≡ q r)
    → select_where q (update_where p f rs) ≡ select_where q rs
select-update p q f [] h k = refl
select-update p q f (x ∷ rs) h k = ground (arith, h x, k x, select-update p q f rs h k)

other_key : (a b n : ℕ) → a ≢ b → (n == b) ≡ true → (n == a) ≡ false
other_key a b n ne e = ground (arith, ==_iff n b)

other_key_and : (a b n : ℕ) (x : Bool) → a ≢ b → (n == b) ≡ true → ((n == a) && x) ≡ false
other_key_and a b n x ne e = ground (arith, ==_iff n b)

-- The rows of another user.
abbrev pub SameRows : ℕ → VoiceTables → VoiceTables → Type 0
SameRows other before after =
    (select_where (λ u. u.id == other) after.users ≡ select_where (λ u. u.id == other) before.users)
    × (select_where (λ r. r.user_id == other) after.profiles
        ≡ select_where (λ r. r.user_id == other) before.profiles)
    × (select_where (is_session_of other) after.sessions
        ≡ select_where (is_session_of other) before.sessions)
    × (select_where (λ r. r.user_id == other) after.vocabulary
        ≡ select_where (λ r. r.user_id == other) before.vocabulary)
    × (select_where (λ r. r.user_id == other) after.review_items
        ≡ select_where (λ r. r.user_id == other) before.review_items)
    × (select_where (λ r. r.user_id == other) after.missions
        ≡ select_where (λ r. r.user_id == other) before.missions)
    × (select_where (λ r. r.user_id == other) after.analytics_events
        ≡ select_where (λ r. r.user_id == other) before.analytics_events)
    × (select_where (λ r. r.user_id == other) after.idempotency_keys
        ≡ select_where (λ r. r.user_id == other) before.idempotency_keys)

-- The transcripts and debriefs of sessions that are not the user's.
abbrev pub SameSpeech : ℕ → VoiceTables → VoiceTables → Type 0
SameSpeech user_id before after =
    (select_where (λ r. not (is_in_sessions_of user_id before.sessions r.session_id))
        after.transcripts
      ≡ select_where (λ r. not (is_in_sessions_of user_id before.sessions r.session_id))
          before.transcripts)
    × (select_where (λ r. not (is_in_sessions_of user_id before.sessions r.session_id))
          after.debriefs
        ≡ select_where (λ r. not (is_in_sessions_of user_id before.sessions r.session_id))
            before.debriefs)

not-true : (b : Bool) → not b ≡ true → b ≡ false
not-true true e = ground arith
not-true false e = refl

erased-SameRows :
    (user_id other : ℕ) (t : VoiceTables) → user_id ≢ other → SameRows other t (erased user_id t)
erased-SameRows user_id other t ne = (
  select-update _ _ without_stats t.users (λ u. other_key_and user_id other u.id _ ne) (λ u. refl),
  select-update _ _ without_memory t.profiles (λ r. other_key_and user_id other r.user_id _ ne)
      (λ r. refl),
  select-delete _ _ t.sessions (λ r. other_key user_id other r.user_id ne),
  select-delete _ _ t.vocabulary (λ r. other_key user_id other r.user_id ne),
  select-delete _ _ t.review_items (λ r. other_key user_id other r.user_id ne),
  select-delete _ _ t.missions (λ r. other_key user_id other r.user_id ne),
  select-delete _ _ t.analytics_events (λ r. other_key user_id other r.user_id ne),
  select-delete _ _ t.idempotency_keys (λ r. other_key user_id other r.user_id ne),
)

-- An erasure that succeeds leaves every row of every other user as it is, in its order, and every transcript and
-- debrief of a session that was not the user's.
pub purge_others :
    (user_id other : ℕ) (db : Db VoiceTables) (ns : List (String × ℕ))
    → user_id ≢ other
    → (purge user_id db).0 ≡ ok ns
    → SameRows other db.working (purge user_id db).1.committed
      × SameSpeech user_id db.working (purge user_id db).1.committed
purge_others user_id other db ns ne done =
    rw (emptied_of user_id db ns (purge user_id db) (purge-Erased user_id db) done) (
      erased-SameRows user_id other db.working ne,
      (
        select-delete _ _ db.working.transcripts (λ r. not-true _),
        select-delete _ _ db.working.debriefs (λ r. not-true _),
      ),
    )

-- The counts of an erasure with nothing to erase.
abbrev pub zeros : List (String × Statement VoiceTables) → List (String × ℕ)
zeros [] = []
zeros ((key, s) ∷ rest) = (key, 0) ∷ zeros rest

counts-zeros :
    (user_id : ℕ) (t : VoiceTables)
    → NoVoice user_id t
    → counts (cascade user_id) t ≡ zeros (cascade user_id)
counts-zeros user_id t (s, v, r, m, a, k, p, u) =
    rw
      (
        count_where-none (λ r. is_in_sessions_of user_id t.sessions r.session_id) t.transcripts
            (NoRow-always _ t.transcripts (λ r. no_sessions user_id t.sessions r.session_id s)),
        count_where-none (λ r. is_in_sessions_of user_id t.sessions r.session_id) t.debriefs
            (NoRow-always _ t.debriefs (λ r. no_sessions user_id t.sessions r.session_id s)),
        count_where-none (λ r. r.user_id == user_id) t.vocabulary v,
        count_where-none (λ r. r.user_id == user_id) t.review_items r,
        count_where-none (is_session_of user_id) t.sessions s,
        count_where-none (λ r. r.user_id == user_id) t.missions m,
        count_where-none (λ r. r.user_id == user_id) t.analytics_events a,
        count_where-none (λ x. (x.user_id == user_id) && has_memory x) t.profiles p,
        count_where-none (λ x. (x.id == user_id) && has_stats x) t.users u,
        count_where-none (λ r. r.user_id == user_id) t.idempotency_keys k,
      )
      refl

erased-same : (user_id : ℕ) (t : VoiceTables) → NoVoice user_id t → erased user_id t ≡ t
erased-same user_id t (s, v, r, m, a, k, p, u) =
    rw
      (
        delete_where-none (λ r. is_in_sessions_of user_id t.sessions r.session_id) t.transcripts
            (NoRow-always _ t.transcripts (λ r. no_sessions user_id t.sessions r.session_id s)),
        delete_where-none (λ r. is_in_sessions_of user_id t.sessions r.session_id) t.debriefs
            (NoRow-always _ t.debriefs (λ r. no_sessions user_id t.sessions r.session_id s)),
        delete_where-none (λ r. r.user_id == user_id) t.vocabulary v,
        delete_where-none (λ r. r.user_id == user_id) t.review_items r,
        delete_where-none (is_session_of user_id) t.sessions s,
        delete_where-none (λ r. r.user_id == user_id) t.missions m,
        delete_where-none (λ r. r.user_id == user_id) t.analytics_events a,
        update_where-none (λ x. (x.user_id == user_id) && has_memory x) without_memory t.profiles p,
        update_where-none (λ x. (x.id == user_id) && has_stats x) without_stats t.users u,
        delete_where-none (λ r. r.user_id == user_id) t.idempotency_keys k,
      )
      refl

again_of :
    (user_id : ℕ) (later : Db VoiceTables) (ms : List (String × ℕ))
    (res : Result (List (String × ℕ)) × Db VoiceTables)
    → NoVoice user_id later.working
    → Erased user_id later res
    → res.0 ≡ ok ms
    → (ms ≡ zeros (cascade user_id)) × (res.1.committed ≡ later.working)
again_of user_id later ms (err x, d) h e done = absurd (let y : err x ≡ ok ms = done in cc)
again_of user_id later ms (ok ns, d) h (n, c) done =
    let same : ns ≡ ms = cc in
    (
      sym same
          ∙ (n
              ∙ (ap (reported user_id later.working) c
                  ∙ (sym (counts-reported user_id later.working)
                      ∙ counts-zeros user_id later.working h))),
      c ∙ erased-same user_id later.working h,
    )

-- When an erasure succeeded, a second one on what it committed that succeeds too reports zero for
-- every kind and commits the tables as they were.
pub purge_again :
    (user_id : ℕ) (db later : Db VoiceTables) (ns ms : List (String × ℕ))
    → (purge user_id db).0 ≡ ok ns
    → later.working ≡ (purge user_id db).1.committed
    → (purge user_id later).0 ≡ ok ms
    → (ms ≡ zeros (cascade user_id)) × ((purge user_id later).1.committed ≡ later.working)
purge_again user_id db later ns ms done after again =
    again_of user_id later ms (purge user_id later)
      (subst (NoVoice user_id) (sym after) (purge-Emptied user_id db ns done).0)
      (purge-Erased user_id later) again
