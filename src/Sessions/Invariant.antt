-- ===== src/Sessions/Invariant.antt =====
-- What holds of the stored sessions: keys are distinct, and no user has two sessions in progress.
use apm.Shared.{
  ℕ, suc, ◌<◌, ◌≡◌, Bool, true, false, List, [], ◌∷◌, ◌++◌, some, arith, ==_iff, Bool-cases, inl,
  inr, if◌then◌else◌,
}
use apm.Shared.Table.{find, update_where, All, NoRow, All-append, find-All}
use mathlib.Core.Path.{subst}
use apm.Database.Models.{ConversationSession, is_none}
use apm.Sessions.Repository.{has_id, is_active_of}

-- Rows later in a list do not clash with an earlier one.
abbrev pub DistinctIds : List ConversationSession → Type 0
DistinctIds [] = Unit
DistinctIds (s ∷ ss) = NoRow (has_id s.id) ss × DistinctIds ss

abbrev pub OneActive : List ConversationSession → Type 0
OneActive [] = Unit
OneActive (s ∷ ss) = (is_none s.ended_at ≡ true → NoRow (is_active_of s.user_id) ss) × OneActive ss

-- A row that is not in progress, or of another user, or after which there is none in progress.
NoRow-snoc :
    (p : ConversationSession → Bool) (ss : List ConversationSession) (r : ConversationSession)
    → NoRow p ss
    → p r ≡ false
    → NoRow p (ss ++ (r ∷ []))
NoRow-snoc p ss r h e = All-append (λ x. p x ≡ false) ss (r ∷ []) h (e, tt)

OneActive-snoc :
    (ss : List ConversationSession) (r : ConversationSession)
    → OneActive ss
    → NoRow (is_active_of r.user_id) ss
    → OneActive (ss ++ (r ∷ []))
OneActive-snoc [] r h n = (λ _. tt, tt)
OneActive-snoc (s ∷ ss) r h n = (
  λ active.
      NoRow-snoc (is_active_of s.user_id) ss r (h.0 active)
        (ground (arith, ==_iff s.user_id r.user_id)),
  OneActive-snoc ss r h.1 n.1,
)

-- How an update of the row with key `n` to `s'` may change a row: the owner stays, and a session
-- that has ended is not opened again.
abbrev Tame : ℕ → ConversationSession → ConversationSession → Type 0
Tame n s' r =
    has_id n r ≡ true
    → (r.user_id ≡ s'.user_id) × (is_none r.ended_at ≡ false → is_none s'.ended_at ≡ false)

NoRow-put :
    (u n : ℕ) (s' : ConversationSession) (ss : List ConversationSession)
    → All (Tame n s') ss
    → NoRow (is_active_of u) ss
    → NoRow (is_active_of u) (update_where (has_id n) (λ _. s') ss)
NoRow-put u n s' [] t h = tt
NoRow-put u n s' (r ∷ ss) t h = (ground (arith, t.0), NoRow-put u n s' ss t.1 h.1)

OneActive-put :
    (n : ℕ) (s' : ConversationSession) (ss : List ConversationSession)
    → All (Tame n s') ss
    → OneActive ss
    → OneActive (update_where (has_id n) (λ _. s') ss)
OneActive-put n s' [] t h = tt
OneActive-put n s' (r ∷ ss) t h = (
  λ active.
      let row : ConversationSession = if has_id n r then s' else r in
      let was : is_none r.ended_at ≡ true = ground (arith, t.0) in
      let same : r.user_id ≡ row.user_id = ground (arith, t.0) in
      subst (λ u. NoRow (is_active_of u) (update_where (has_id n) (λ _. s') ss)) same
        (NoRow-put r.user_id n s' ss t.1 (h.0 was)),
  OneActive-put n s' ss t.1 h.1,
)

Tame-of_NoRow :
    (n : ℕ) (s' : ConversationSession) (ss : List ConversationSession)
    → NoRow (has_id n) ss
    → All (Tame n s') ss
Tame-of_NoRow n s' [] h = tt
Tame-of_NoRow n s' (r ∷ ss) h = (λ e. absurd (ground arith), Tame-of_NoRow n s' ss h.1)

-- With distinct keys only the row that is found has its key.
Tame-of_found :
    (s s' : ConversationSession) (ss : List ConversationSession)
    → DistinctIds ss
    → find (has_id s.id) ss ≡ some s
    → s.user_id ≡ s'.user_id
    → (is_none s.ended_at ≡ false → is_none s'.ended_at ≡ false)
    → All (Tame s.id s') ss
Tame-of_found s s' [] d e u k = tt
Tame-of_found s s' (r ∷ ss) d e u k = (
  λ same. ground (arith, k),
  elim (Bool-cases (has_id s.id r)) [
    | inl here ↦
        let n : r.id ≡ s.id = ground arith in
        Tame-of_NoRow s.id s' ss (subst (λ m. NoRow (has_id m) ss) n d.0)
    | inr other ↦ Tame-of_found s s' ss d.1 (ground arith) u k
  ],
)

NoRow-id-put :
    (s' : ConversationSession) (n m : ℕ) (ss : List ConversationSession)
    → s'.id ≡ n
    → NoRow (has_id m) ss
    → NoRow (has_id m) (update_where (has_id n) (λ _. s') ss)
NoRow-id-put s' n m [] e h = tt
NoRow-id-put s' n m (r ∷ ss) e h = (ground arith, NoRow-id-put s' n m ss e h.1)

DistinctIds-put :
    (s' : ConversationSession) (n : ℕ) (ss : List ConversationSession)
    → s'.id ≡ n
    → DistinctIds ss
    → DistinctIds (update_where (has_id n) (λ _. s') ss)
DistinctIds-put s' n [] e d = tt
DistinctIds-put s' n (r ∷ ss) e d =
    let row : ConversationSession = if has_id n r then s' else r in
    let same : r.id ≡ row.id = ground arith in
    (
      subst (λ m. NoRow (has_id m) (update_where (has_id n) (λ _. s') ss)) same
          (NoRow-id-put s' n r.id ss e d.0),
      DistinctIds-put s' n ss e d.1,
    )

-- The keys in use are below the next one, distinct, and no user has two sessions in progress.
pub record IsSound (ss : List ConversationSession) (next : ℕ) : Type 0 where
  pub below : All (λ s. s.id < next) ss
  pub distinct : DistinctIds ss
  pub one_active : OneActive ss

below-put :
    (s' : ConversationSession) (n next : ℕ) (ss : List ConversationSession)
    → s'.id < next
    → All (λ s. s.id < next) ss
    → All (λ s. s.id < next) (update_where (has_id n) (λ _. s') ss)
below-put s' n next [] e h = tt
below-put s' n next (r ∷ ss) e h = (ground arith, below-put s' n next ss e h.1)

below_suc :
    (next : ℕ) (ss : List ConversationSession)
    → All (λ s. s.id < next) ss
    → All (λ s. s.id < suc next) ss
below_suc next [] h = tt
below_suc next (r ∷ ss) h = (omega arith, below_suc next ss h.1)

DistinctIds-snoc :
    (ss : List ConversationSession) (r : ConversationSession)
    → All (λ s. s.id < r.id) ss
    → DistinctIds ss
    → DistinctIds (ss ++ (r ∷ []))
DistinctIds-snoc [] r b d = (tt, tt)
DistinctIds-snoc (s ∷ ss) r b d =
    (NoRow-snoc (has_id s.id) ss r d.0 (ground arith), DistinctIds-snoc ss r b.1 d.1)

-- A new session in progress of a user who has none.
pub IsSound-snoc :
    (ss : List ConversationSession) (r : ConversationSession)
    → IsSound ss r.id
    → NoRow (is_active_of r.user_id) ss
    → IsSound (ss ++ (r ∷ [])) (suc r.id)
IsSound-snoc ss r v n = record {
  below =
      All-append (λ s. s.id < suc r.id) ss (r ∷ []) (below_suc r.id ss v.below) (omega arith, tt);
  distinct = DistinctIds-snoc ss r v.below v.distinct;
  one_active = OneActive-snoc ss r v.one_active n;
}

-- A stored session that is changed, but neither opened again nor given away.
pub IsSound-put :
    (s s' : ConversationSession) (ss : List ConversationSession) (next : ℕ)
    → IsSound ss next
    → find (has_id s.id) ss ≡ some s
    → s'.id ≡ s.id
    → s.user_id ≡ s'.user_id
    → (is_none s.ended_at ≡ false → is_none s'.ended_at ≡ false)
    → IsSound (update_where (has_id s.id) (λ _. s') ss) next
IsSound-put s s' ss next v e same u k =
    let here : s.id < next = find-All (λ r. r.id < next) (has_id s.id) ss v.below e in
    record {
      below = below-put s' s.id next ss (rw same here) v.below;
      distinct = DistinctIds-put s' s.id ss same v.distinct;
      one_active = OneActive-put s.id s' ss (Tame-of_found s s' ss v.distinct e u k) v.one_active;
    }

NoRow-find :
    (n : ℕ) (p : ConversationSession → Bool) (ss : List ConversationSession)
    {s : ConversationSession}
    → NoRow (has_id n) ss
    → find p ss ≡ some s
    → has_id n s ≡ false
NoRow-find n p ss h e = find-All (λ r. has_id n r ≡ false) p ss h e

-- A session found by another condition is the one found by its key.
pub find_by_id :
    (p : ConversationSession → Bool) (ss : List ConversationSession) (s : ConversationSession)
    → DistinctIds ss
    → find p ss ≡ some s
    → find (has_id s.id) ss ≡ some s
find_by_id p [] s d e = cc
find_by_id p (r ∷ ss) s d e = elim (Bool-cases (p r)) [
  | inl here ↦ ground (arith, ==_iff r.id r.id)
  | inr other ↦
      let found : find p ss ≡ some s = ground arith in
      let apart = NoRow-find r.id p ss d.0 found in
      ground (arith, find_by_id p ss s d.1 found, ==_iff r.id s.id, ==_iff s.id r.id)
]
