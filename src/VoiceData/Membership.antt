-- ===== src/VoiceData/Membership.antt =====
-- Which utterances an export holds.
use apm.Shared.{
  ℕ, ◌≡◌, refl, sym, ap, ◌∙◌, true, inl, inr, List, [], ◌∷◌, some, String, arith, ◌==◌, str_eq,
  str_eq_iff, Bool-cases, Option-cases,
}
use mathlib.Core.Path.{subst}
use apm.Shared.Occurs.{In, In-append, In-append_left, In-append_right}
use apm.Shared.Table.{find}
use apm.Database.Models.{ConversationSession}
use apm.Sessions.Repository.{Transcript, Message}
use apm.VoiceData.Pages.{Order, insert_row, order_by}
use apm.VoiceData.Export.{Joined, Utterance, user_turns, utterances_of, join_on}

module _ {K R : Type 0} (order : Order K) (key : R → K) where
  In-insert_row : (x a : R) (ys : List R) → In a (insert_row order key x ys) → In a (x ∷ ys)
  In-insert_row x a [] h = h
  In-insert_row x a (y ∷ ys) h = elim (Bool-cases (order.lt (key x) (key y))) [
    | inl t ↦ rw t at h
    | inr f ↦ elim (rw f at h) as (λ _. In a (x ∷ y ∷ ys)) [
      | inl e ↦ inr (inl e)
      | inr k ↦ elim (In-insert_row x a ys k) [ inl e ↦ inl e | inr m ↦ inr (inr m) ]
    ]
  ]

  In-insert_row_back : (x a : R) (ys : List R) → In a (x ∷ ys) → In a (insert_row order key x ys)
  In-insert_row_back x a [] h = h
  In-insert_row_back x a (y ∷ ys) h = elim (Bool-cases (order.lt (key x) (key y))) [
    | inl t ↦ rw t h
    | inr f ↦ rw f (behind h (λ k. In-insert_row_back x a ys k))
  ]
    where
      behind :
          In a (x ∷ y ∷ ys)
          → (In a (x ∷ ys) → In a (insert_row order key x ys))
          → In a (y ∷ insert_row order key x ys)
      behind (inl e) ih = inr (ih (inl e))
      behind (inr (inl e)) ih = inl e
      behind (inr (inr k)) ih = inr (ih (inr k))

  pub In-order_by : (a : R) (xs : List R) → In a (order_by order key xs) → In a xs
  unfolding order_by
  In-order_by a [] h = h
  In-order_by a (x ∷ xs) h = elim (In-insert_row x a (order_by order key xs) h) [
    | inl e ↦ inl e
    | inr k ↦ inr (In-order_by a xs k)
  ]

  pub In-order_by_back : (a : R) (xs : List R) → In a xs → In a (order_by order key xs)
  unfolding order_by
  In-order_by_back a [] h = h
  In-order_by_back a (x ∷ xs) (inl e) = In-insert_row_back x a (order_by order key xs) (inl e)
  In-order_by_back a (x ∷ xs) (inr k) =
      In-insert_row_back x a (order_by order key xs) (inr (In-order_by_back a xs k))

-- A row of a join is a session with its row of the other table.
module _ {A : Type 0} (session_id : A → ℕ) (rows : List A) where
  abbrev pub Joins : Joined A → List ConversationSession → Type 0
  Joins j ss =
      (s : ConversationSession) × (a : A) × In s ss
      × (find (λ r. session_id r == s.id) rows ≡ some a)
      × (j ≡ record { id = s.id; started_at = s.started_at; row = a })

  pub In-join_on :
      (j : Joined A) (ss : List ConversationSession)
      → In j (join_on session_id rows ss)
      → Joins j ss
  In-join_on j [] h = absurd h
  In-join_on j (s ∷ rest) h = elim (Option-cases (find (λ r. session_id r == s.id) rows)) [
    | inl e ↦ let (x, a, k, f, q) = In-join_on j rest (rw e at h) in (x, a, inr k, f, q)
    | inr (b, e) ↦ elim (rw e at h) as (λ _. Joins j (s ∷ rest)) [
      | inl q ↦ (s, b, inl refl, e, q)
      | inr m ↦ let (x, a, k, f, q) = In-join_on j rest m in (x, a, inr k, f, q)
    ]
  ]

  pub In-join_on_back :
      (j : Joined A) (ss : List ConversationSession)
      → Joins j ss
      → In j (join_on session_id rows ss)
  In-join_on_back j [] (s, a, k, f, q) = absurd k
  In-join_on_back j (y ∷ rest) (s, a, inl e, f, q) =
      let g : find (λ r. session_id r == y.id) rows ≡ some a =
        subst (λ z. find (λ r. session_id r == z.id) rows ≡ some a) e f in
      rw g (
        inl (
          q
          ∙ ap
              (λ (z : ConversationSession). record {
                id = z.id;
                started_at = z.started_at;
                row = a;
              })
              e))
  In-join_on_back j (y ∷ rest) (s, a, inr k, f, q) =
      let m = In-join_on_back j rest (s, a, k, f, q) in
      elim (Option-cases (find (λ r. session_id r == y.id) rows)) [
        | inl e ↦ rw e m
        | inr (b, e) ↦ rw e (inr m)
      ]

module _ (isoformat : ℕ → String) where
  -- A turn of the learner, as it is exported.
  abbrev pub Spoken : Utterance → ℕ → ℕ → List Message → Type 0
  Spoken u id at ms =
      (m : Message) × In m ms
      × (m.role ≡ "user")
      × (u ≡ record { session_id = id; started_at = isoformat at; text = m.content })

  pub In-user_turns :
      (u : Utterance) (id at : ℕ) (ms : List Message)
      → In u (user_turns isoformat id at ms)
      → Spoken u id at ms
  In-user_turns u id at [] h = absurd h
  In-user_turns u id at (m ∷ ms) h = elim (Bool-cases (str_eq m.role "user")) [
    | inr f ↦ let (n, k, r, q) = In-user_turns u id at ms (rw f at h) in (n, inr k, r, q)
    | inl t ↦ elim (rw t at h) as (λ _. Spoken u id at (m ∷ ms)) [
      | inl q ↦ (m, inl refl, ground (arith, str_eq_iff m.role "user"), q)
      | inr x ↦ let (n, k, r, q) = In-user_turns u id at ms x in (n, inr k, r, q)
    ]
  ]

  pub In-user_turns_back :
      (u : Utterance) (id at : ℕ) (ms : List Message)
      → Spoken u id at ms
      → In u (user_turns isoformat id at ms)
  In-user_turns_back u id at [] (n, k, r, q) = absurd k
  In-user_turns_back u id at (m ∷ ms) (n, inl e, r, q) =
      let t : str_eq m.role "user" ≡ true =
        ground (arith, str_eq_iff m.role "user", sym (ap (λ (x : Message). x.role) e) ∙ r) in
      rw t (
        inl (
          q
          ∙ ap
              (λ (x : Message). record {
                session_id = id;
                started_at = isoformat at;
                text = x.content;
              })
              e))
  In-user_turns_back u id at (m ∷ ms) (n, inr k, r, q) =
      let x = In-user_turns_back u id at ms (n, k, r, q) in
      elim (Bool-cases (str_eq m.role "user")) [ inl t ↦ rw t (inr x) | inr f ↦ rw f x ]

  abbrev pub SpokenIn : Utterance → List (Joined Transcript) → Type 0
  SpokenIn u js = (j : Joined Transcript) × In j js × Spoken u j.id j.started_at j.row.turns

  pub In-utterances_of :
      (u : Utterance) (js : List (Joined Transcript))
      → In u (utterances_of isoformat js)
      → SpokenIn u js
  In-utterances_of u [] h = absurd h
  In-utterances_of u (j ∷ js) h =
      elim (In-append u (user_turns isoformat j.id j.started_at j.row.turns)
        (utterances_of isoformat js) h) [
          | inl a ↦ (j, inl refl, In-user_turns u j.id j.started_at j.row.turns a)
          | inr b ↦ let (i, k, x) = In-utterances_of u js b in (i, inr k, x)
        ]

  pub In-utterances_of_back :
      (u : Utterance) (js : List (Joined Transcript))
      → SpokenIn u js
      → In u (utterances_of isoformat js)
  In-utterances_of_back u [] (i, k, x) = absurd k
  In-utterances_of_back u (j ∷ js) (i, inl e, x) =
      In-append_left u (user_turns isoformat j.id j.started_at j.row.turns)
        (utterances_of isoformat js)
        (In-user_turns_back u j.id j.started_at j.row.turns
          (subst (λ (z : Joined Transcript). Spoken u z.id z.started_at z.row.turns) e x))
  In-utterances_of_back u (j ∷ js) (i, inr k, x) =
      In-append_right u (user_turns isoformat j.id j.started_at j.row.turns)
        (utterances_of isoformat js) (In-utterances_of_back u js (i, k, x))
