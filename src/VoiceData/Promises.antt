-- ===== src/VoiceData/Promises.antt =====
-- The promises of an erasure: all or nothing, nothing of the user left, nothing of others lost, and
-- nothing to do the second time.
use apm.Shared.{
  ℕ, ◌≡◌, refl, true, false, Bool, List, [], ◌∷◌, String, ◌-◌, ◌==◌, ◌&&◌, ◌∙◌, length, arith,
}
use apm.Shared.Table.{
  NoRow, delete_where-NoRow, count_where, select_where, delete_where, count_where-delete,
}
use apm.Database.{Db, Result, ok, err, pure, ◌>>=◌, commit}
use apm.VoiceData.{
  affected_all, cascade, purge, is_session_of, is_in_sessions_of, has_memory, has_stats,
}
use apm.VoiceData.Rows.{VoiceTables}
use apm.VoiceData.Erasure.{counts, Executed, affected_all-Executed, erased, NoVoice, erased-NoVoice}

-- For each kind, how many rows there are less after than before; of the profile and of the account,
-- whether it had something to take away.
abbrev pub reported : ℕ → VoiceTables → VoiceTables → List (String × ℕ)
reported user_id old new =
    ("transcripts", length old.transcripts - length new.transcripts)
    ∷ ("debriefs", length old.debriefs - length new.debriefs)
    ∷ ("vocabulary", length old.vocabulary - length new.vocabulary)
    ∷ ("review_items", length old.review_items - length new.review_items)
    ∷ ("sessions", length old.sessions - length new.sessions)
    ∷ ("missions", length old.missions - length new.missions)
    ∷ ("analytics_events", length old.analytics_events - length new.analytics_events)
    ∷ (
      "memory_summary",
      length (select_where (λ p. (p.user_id == user_id) && has_memory p) old.profiles),
    )
    ∷ ("user_stats", length (select_where (λ u. (u.id == user_id) && has_stats u) old.users))
    ∷ ("idempotency_keys", length old.idempotency_keys - length new.idempotency_keys)
    ∷ []

-- How an erasure ends.
abbrev pub Erased : ℕ → Db VoiceTables → Result (List (String × ℕ)) × Db VoiceTables → Type 0
Erased user_id db (ok ns, after) =
    (ns ≡ reported user_id db.working after.committed)
    × (after.committed ≡ erased user_id db.working)
Erased user_id db (err e, after) = after.committed ≡ db.committed

count_where-lost :
    {A : Type 0} (p : A → Bool) (rs : List A)
    → count_where p rs ≡ length rs - length (delete_where p rs)
count_where-lost p rs = omega (arith, count_where-delete p rs)

count_where-select :
    {A : Type 0} (p : A → Bool) (rs : List A) → count_where p rs ≡ length (select_where p rs)
count_where-select p [] = refl
count_where-select p (r ∷ rs) = ground (arith, count_where-select p rs)

pub counts-reported :
    (user_id : ℕ) (t : VoiceTables)
    → counts (cascade user_id) t ≡ reported user_id t (erased user_id t)
counts-reported user_id t =
    rw
      (
        count_where-lost (λ r. is_in_sessions_of user_id t.sessions r.session_id) t.transcripts,
        count_where-lost (λ r. is_in_sessions_of user_id t.sessions r.session_id) t.debriefs,
        count_where-lost (λ r. r.user_id == user_id) t.vocabulary,
        count_where-lost (λ r. r.user_id == user_id) t.review_items,
        count_where-lost (is_session_of user_id) t.sessions,
        count_where-lost (λ r. r.user_id == user_id) t.missions,
        count_where-lost (λ r. r.user_id == user_id) t.analytics_events,
        count_where-select (λ p. (p.user_id == user_id) && has_memory p) t.profiles,
        count_where-select (λ u. (u.id == user_id) && has_stats u) t.users,
        count_where-lost (λ r. r.user_id == user_id) t.idempotency_keys,
      )
      refl

commit_after :
    (user_id : ℕ) (db : Db VoiceTables) (res : Result (List (String × ℕ)) × Db VoiceTables)
    → Executed (cascade user_id) db res
    → Erased user_id db (((λ _. res) >>= λ ns. commit >>= λ _. pure ns) db)
commit_after user_id db (err e, d) h = h
commit_after user_id db (ok ns, d) (n, w, c) = commit_with d.faults refl
  where
    told : ns ≡ reported user_id db.working (erased user_id db.working)
    told = n ∙ counts-reported user_id db.working

    written :
        (committed : VoiceTables)
        → committed ≡ erased user_id db.working
        → ns ≡ reported user_id db.working committed
    written committed e = rw e told

    commit_with :
        (faults : List Bool) → d.faults ≡ faults → Erased user_id db ((commit >>= λ _. pure ns) d)
    commit_with [] e = rw e (written d.working w, w)
    commit_with (true ∷ fs) e = rw e c
    commit_with (false ∷ fs) e = rw e (written d.working w, w)

-- An erasure that succeeds reports under the name of each kind how many rows fewer there are now, and for
-- the memory and the statistics how many rows had any, and has committed the tables without the user's
-- voice data; one in which any statement fails has committed nothing.
pub purge-Erased : (user_id : ℕ) (db : Db VoiceTables) → Erased user_id db (purge user_id db)
unfolding purge
purge-Erased user_id db =
    commit_after user_id db (affected_all (cascade user_id) db)
      (affected_all-Executed (cascade user_id) db)

abbrev pub Emptied : ℕ → VoiceTables → VoiceTables → Type 0
Emptied user_id before after =
    NoVoice user_id after
    × NoRow (λ r. is_in_sessions_of user_id before.sessions r.session_id) after.transcripts
    × NoRow (λ r. is_in_sessions_of user_id before.sessions r.session_id) after.debriefs

pub emptied_of :
    (user_id : ℕ) (db : Db VoiceTables) (ns : List (String × ℕ))
    (res : Result (List (String × ℕ)) × Db VoiceTables)
    → Erased user_id db res
    → res.0 ≡ ok ns
    → res.1.committed ≡ erased user_id db.working
emptied_of user_id db ns (ok ms, d) h e = h.1
emptied_of user_id db ns (err x, d) h e = absurd (let y : err x ≡ ok ns = e in cc)

-- After an erasure that succeeds no session, vocabulary, review item, mission, event or key of the user is
-- committed, no transcript or debrief of a session that was the user's, no memory in the user's
-- profile, and the user's level and streaks are the initial ones.
pub purge-Emptied :
    (user_id : ℕ) (db : Db VoiceTables) (ns : List (String × ℕ))
    → (purge user_id db).0 ≡ ok ns
    → Emptied user_id db.working (purge user_id db).1.committed
purge-Emptied user_id db ns done =
    rw (emptied_of user_id db ns (purge user_id db) (purge-Erased user_id db) done) (
      erased-NoVoice user_id db.working,
      delete_where-NoRow _ db.working.transcripts,
      delete_where-NoRow _ db.working.debriefs,
    )
