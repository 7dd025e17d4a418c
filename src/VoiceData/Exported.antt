-- ===== src/VoiceData/Exported.antt =====
-- Which utterances the export of a learner holds.
use apm.Shared.{ℕ, ◌<◌, ◌≡◌, refl, sym, ap, true, some, String, length, arith, ◌==◌, ==_iff}
use mathlib.Core.Path.{subst}
use apm.Shared.Occurs.{In, In-select, In-select_back}
use apm.Shared.Table.{find, select_where}
use apm.Database.Models.{ConversationSession}
use apm.Sessions.Repository.{Transcript, Message}
use apm.VoiceData.{is_session_of}
use apm.VoiceData.Rows.{VoiceTables}
use apm.VoiceData.Pages.{by_pair, order_by}
use apm.VoiceData.Ordering.{IsUnique}
use apm.VoiceData.Export.{Utterance, session_key, transcript_rows, utterances_of, stream_utterances}
use apm.VoiceData.Portability.{sorted_pages}
use apm.VoiceData.Membership.{
  In-order_by, In-order_by_back, In-join_on, In-join_on_back, In-utterances_of,
  In-utterances_of_back,
}

module _ (isoformat : ℕ → String) (t : VoiceTables) (user_id : ℕ) where
  -- The utterance is a turn with the role of the user in the transcript of a session of the user, with the
  -- number and the start of that session.
  abbrev pub Uttered : Utterance → Type 0
  Uttered u =
      (s : ConversationSession) × (r : Transcript) × (m : Message) × In s t.sessions
      × (s.user_id ≡ user_id)
      × (find (λ x. x.session_id == s.id) t.transcripts ≡ some r)
      × In m r.turns
      × (m.role ≡ "user")
      × (u ≡ record { session_id = s.id; started_at = isoformat s.started_at; text = m.content })

  utterances-Uttered :
      (u : Utterance)
      → In u (utterances_of isoformat (order_by by_pair session_key (transcript_rows t user_id)))
      → Uttered u
  utterances-Uttered u h =
      let (j, k, (m, i, role, q)) = In-utterances_of isoformat u _ h in
      let (s, r, l, f, e) =
        In-join_on (λ (x : Transcript). x.session_id) t.transcripts j
          (select_where (is_session_of user_id) t.sessions)
          (In-order_by by_pair session_key j (transcript_rows t user_id) k) in
      let (at, owner) = In-select (is_session_of user_id) s t.sessions l in
      (
        s,
        r,
        m,
        at,
        ground (arith, ==_iff s.user_id user_id),
        f,
        subst (λ x. In m x.row.turns) e i,
        role,
        subst
            (λ x.
              u
              ≡ record { session_id = x.id; started_at = isoformat x.started_at; text = m.content })
            e q,
      )

  Uttered-utterances :
      (u : Utterance)
      → Uttered u
      → In u (utterances_of isoformat (order_by by_pair session_key (transcript_rows t user_id)))
  Uttered-utterances u (s, r, m, at, owner, f, i, role, q) = In-utterances_of_back isoformat u _ (
    record { id = s.id; started_at = s.started_at; row = r },
    In-order_by_back by_pair session_key _ (transcript_rows t user_id) (
        In-join_on_back (λ (x : Transcript). x.session_id) t.transcripts _
          (select_where (is_session_of user_id) t.sessions)
          (
            s,
            r,
            In-select_back (is_session_of user_id) s t.sessions at
                (ground (arith, ==_iff s.user_id user_id)),
            f,
            refl,
          )),
    (m, i, role, q),
  )

  -- With no change of the tables meanwhile, sessions with unique identifiers and one page more than there
  -- are transcripts, the stream of utterances ends, and an utterance is in it exactly if it is a turn with
  -- the role of the user in the transcript of a session of that user.
  pub stream_utterances-Uttered :
      (fuel : ℕ) (u : Utterance)
      → IsUnique by_pair session_key (transcript_rows t user_id)
      → length (transcript_rows t user_id) < fuel
      → let res = stream_utterances isoformat fuel (λ i. t) user_id in
        (res.1 ≡ true) × (In u res.0 → Uttered u) × (Uttered u → In u res.0)
  unfolding stream_utterances
  stream_utterances-Uttered fuel u unique enough =
      let pages = sorted_pages by_pair session_key (transcript_rows t user_id) fuel unique enough in
      (
        ap (λ p. p.1) pages,
        λ h. utterances-Uttered u (subst (λ p. In u (utterances_of isoformat p.0)) pages h),
        λ h. subst (λ p. In u (utterances_of isoformat p.0)) (sym pages) (Uttered-utterances u h),
      )
