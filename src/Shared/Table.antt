-- ===== src/Shared/Table.antt =====
-- A database table as the list of its rows, with the three statements that the backend uses: SELECT
-- of one row, UPDATE ... WHERE and DELETE ... WHERE.
use apm.Shared.Tests.{if◌then◌else◌, Bool-cases}
use Prim.Native.Nat.{ℕ, suc, ◌+◌}
use apm.Shared.Lists.{length}
use mathlib.Core.Bool.{Bool, true, false}
use mathlib.Core.List.{List, [], ◌∷◌, ◌++◌}
use mathlib.Core.Logic.{inl, inr}
use mathlib.Core.Option.{Option, none, some}
use mathlib.Core.Path.{◌≡◌, refl, subst}
use native.Mathlib.Omega.{arith}

module _ {A : Type 0} where
  -- The first row that satisfies a condition.
  abbrev pub find : (A → Bool) → List A → Option A
  find p [] = none
  find p (r ∷ rs) = if p r then some r else find p rs

  -- `UPDATE ... SET f WHERE p`
  abbrev pub update_where : (A → Bool) → (A → A) → List A → List A
  update_where p f [] = []
  update_where p f (r ∷ rs) = (if p r then f r else r) ∷ update_where p f rs

  -- `DELETE ... WHERE p`
  abbrev pub delete_where : (A → Bool) → List A → List A
  delete_where p [] = []
  delete_where p (r ∷ rs) = if p r then delete_where p rs else r ∷ delete_where p rs

  -- Every row satisfies a predicate.
  abbrev pub All : (A → Type 0) → List A → Type 0
  All P [] = Unit
  All P (r ∷ rs) = P r × All P rs

  -- No row satisfies a condition.
  abbrev pub NoRow : (A → Bool) → List A → Type 0
  NoRow p = All (λ r. p r ≡ false)

  pub All-append : (P : A → Type 0) (xs ys : List A) → All P xs → All P ys → All P (xs ++ ys)
  All-append P [] ys hx hy = hy
  All-append P (x ∷ xs) ys hx hy = (hx.0, All-append P xs ys hx.1 hy)

  pub find-All :
      (P : A → Type 0) (p : A → Bool) (rs : List A) {r : A} → All P rs → find p rs ≡ some r → P r
  find-All P p [] h e = absurd (cc)
  find-All P p (x ∷ rs) {r} h e = elim (Bool-cases (p x)) [
    | inl t ↦ let q : some x ≡ some r = rw t at e in subst P (cc) h.0
    | inr f ↦ find-All P p rs h.1 (rw f at e)
  ]

  pub find-holds : (p : A → Bool) (rs : List A) {r : A} → find p rs ≡ some r → p r ≡ true
  find-holds p [] e = cc
  find-holds p (x ∷ rs) {r} e = ground (arith, find-holds p rs {r = r})

  pub find-eq-none : (p : A → Bool) (rs : List A) → NoRow p rs → find p rs ≡ none
  find-eq-none p [] h = refl
  find-eq-none p (x ∷ rs) h = ground (arith, find-eq-none p rs h.1)

  pub NoRow-of_none : (p : A → Bool) (rs : List A) → find p rs ≡ none → NoRow p rs
  NoRow-of_none p [] e = tt
  NoRow-of_none p (x ∷ rs) e = ground (arith, NoRow-of_none p rs)

  -- After an update whose result no longer meets the condition, no row meets it.
  pub update_where-NoRow :
      (p : A → Bool) (f : A → A) (q : A → Bool) (rs : List A)
      → ((r : A) → p r ≡ true → q (f r) ≡ false)
      → ((r : A) → p r ≡ false → q r ≡ false)
      → NoRow q (update_where p f rs)
  update_where-NoRow p f q [] h k = tt
  update_where-NoRow p f q (x ∷ rs) h k = ground (arith, h x, k x, update_where-NoRow p f q rs h k)

  -- An update that keeps a predicate keeps it for every row.
  pub update_where-All :
      (P : A → Type 0) (p : A → Bool) (f : A → A) (rs : List A)
      → ((r : A) → p r ≡ true → P r → P (f r))
      → All P rs
      → All P (update_where p f rs)
  update_where-All P p f [] h k = tt
  update_where-All P p f (x ∷ rs) h k = elim (Bool-cases (p x)) [
    | inl t ↦ rw t (h x t k.0, update_where-All P p f rs h k.1)
    | inr e ↦ rw e (k.0, update_where-All P p f rs h k.1)
  ]

  -- An update that keeps a condition of each row finds the updated row.
  pub find-update_where :
      (q p : A → Bool) (f : A → A) (rs : List A)
      → ((r : A) → q (f r) ≡ q r)
      → find q (update_where p f rs)
        ≡ elim (find q rs) [ none ↦ none | some r ↦ some (if p r then f r else r) ]
  find-update_where q p f [] h = refl
  find-update_where q p f (x ∷ rs) h = ground (arith, h x, find-update_where q p f rs h)

  pub find-append :
      (p : A → Bool) (rs ss : List A)
      → find p (rs ++ ss) ≡ elim (find p rs) [ none ↦ find p ss | some r ↦ some r ]
  find-append p [] ss = refl
  find-append p (x ∷ rs) ss = ground (arith, find-append p rs ss)

  -- The number of rows that satisfy a condition: what a statement reports as its row count.
  abbrev pub count_where : (A → Bool) → List A → ℕ
  count_where p [] = 0
  count_where p (r ∷ rs) = if p r then suc (count_where p rs) else count_where p rs

  -- `SELECT ... WHERE p`
  abbrev pub select_where : (A → Bool) → List A → List A
  select_where p [] = []
  select_where p (r ∷ rs) = if p r then r ∷ select_where p rs else select_where p rs

  pub delete_where-NoRow : (p : A → Bool) (rs : List A) → NoRow p (delete_where p rs)
  delete_where-NoRow p [] = tt
  delete_where-NoRow p (x ∷ rs) = ground (arith, delete_where-NoRow p rs)

  -- A statement whose condition no row meets changes nothing, and says so.
  pub delete_where-none : (p : A → Bool) (rs : List A) → NoRow p rs → delete_where p rs ≡ rs
  delete_where-none p [] h = refl
  delete_where-none p (x ∷ rs) h = ground (arith, delete_where-none p rs h.1)

  pub update_where-none :
      (p : A → Bool) (f : A → A) (rs : List A) → NoRow p rs → update_where p f rs ≡ rs
  update_where-none p f [] h = refl
  update_where-none p f (x ∷ rs) h = ground (arith, update_where-none p f rs h.1)

  pub count_where-none : (p : A → Bool) (rs : List A) → NoRow p rs → count_where p rs ≡ 0
  count_where-none p [] h = refl
  count_where-none p (x ∷ rs) h = ground (arith, count_where-none p rs h.1)

  -- Rows that a condition implies are not met by any are not met by the stronger one.
  pub NoRow-weaken :
      (p q : A → Bool) (rs : List A)
      → ((r : A) → p r ≡ false → q r ≡ false)
      → NoRow p rs
      → NoRow q rs
  NoRow-weaken p q [] h k = tt
  NoRow-weaken p q (x ∷ rs) h k = (h x k.0, NoRow-weaken p q rs h k.1)

  pub NoRow-always : (p : A → Bool) (rs : List A) → ((r : A) → p r ≡ false) → NoRow p rs
  NoRow-always p [] h = tt
  NoRow-always p (x ∷ rs) h = (h x, NoRow-always p rs h)

  -- A row that is replaced is found in its place.
  pub find-update_where_self :
      (p : A → Bool) (x : A) (rs : List A) {r : A}
      → find p rs ≡ some r
      → p x ≡ true
      → find p (update_where p (λ _. x) rs) ≡ some x
  find-update_where_self p x [] e h = absurd (cc)
  find-update_where_self p x (y ∷ rs) {r} e h =
      ground (arith, find-update_where_self p x rs {r = r})

  -- What was deleted and what is left make up the table.
  pub count_where-delete :
      (p : A → Bool) (rs : List A) → count_where p rs + length (delete_where p rs) ≡ length rs
  count_where-delete p [] = refl
  count_where-delete p (r ∷ rs) = ground (arith, count_where-delete p rs)
