-- ===== src/VoiceData/Ordering.antt =====
-- Sorted pages: `ORDER BY` on a unique key, and pages between which others change the table.
use apm.Shared.{
  ℕ, zero, suc, ◌+◌, ◌≡◌, ◌≢◌, refl, ap, ◌∙◌, Bool, true, false, Bool-cases, inl, inr, List, [],
  ◌∷◌, ◌++◌, Option, none, some, ltb, length, arith,
}
use mathlib.Core.List.{Perm}
use mathlib.Core.List.Perm
use apm.Shared.Table.{All, All-append}
use apm.VoiceData.Pages.{Order, last_of, yield_page, insert_row, order_by, keyset_pages}
use apm.VoiceData.Paging.{Above, Increasing, Above-trans}

module _ {K R : Type 0} (order : Order K) (key : R → K) where
  -- The key is unique in a table.
  abbrev pub IsUnique : List R → Type 0
  IsUnique [] = Unit
  IsUnique (x ∷ xs) = All (λ r. key x ≢ key r) xs × IsUnique xs

  insert_row-All :
      (P : R → Type 0) (x : R) (ys : List R) → P x → All P ys → All P (insert_row order key x ys)
  insert_row-All P x [] h k = (h, tt)
  insert_row-All P x (y ∷ ys) h k = elim (Bool-cases (order.lt (key x) (key y))) [
    | inl t ↦ rw t (h, k)
    | inr f ↦ rw f (k.0, insert_row-All P x ys h k.1)
  ]

  order_by-All : (P : R → Type 0) (xs : List R) → All P xs → All P (order_by order key xs)
  unfolding order_by
  order_by-All P [] h = tt
  order_by-All P (x ∷ xs) h = insert_row-All P x (order_by order key xs) h.0 (order_by-All P xs h.1)

  insert_row-Increasing :
      (x : R) (ys : List R)
      → Increasing order key ys
      → All (λ r. key x ≢ key r) ys
      → Increasing order key (insert_row order key x ys)
  insert_row-Increasing x [] h k = (tt, tt)
  insert_row-Increasing x (y ∷ ys) (above, h) (ne, k) =
      elim (Bool-cases (order.lt (key x) (key y))) [
        | inl t ↦ rw t ((t, Above-trans order key (key x) (key y) ys t above), (above, h))
        | inr f ↦ rw f (
          insert_row-All (λ r. order.lt (key y) (key r) ≡ true) x ys (y_below f ne) above,
          insert_row-Increasing x ys h k,
        )
      ]
    where
      y_below : order.lt (key x) (key y) ≡ false → key x ≢ key y → order.lt (key y) (key x) ≡ true
      y_below f ne' = elim (Bool-cases (order.lt (key y) (key x))) [
        | inl t ↦ t
        | inr g ↦ absurd (ne' (order.total (key x) (key y) f g))
      ]

  -- The rows of a table with a unique key come in the increasing order of the keys.
  pub order_by-Increasing :
      (xs : List R) → IsUnique xs → Increasing order key (order_by order key xs)
  unfolding order_by
  order_by-Increasing [] h = tt
  order_by-Increasing (x ∷ xs) (ne, h) =
      insert_row-Increasing x (order_by order key xs) (order_by-Increasing xs h)
        (order_by-All (λ r. key x ≢ key r) xs ne)

  insert_row-Perm : (x : R) (ys : List R) → Perm (insert_row order key x ys) (x ∷ ys)
  insert_row-Perm x [] = Perm.refl (x ∷ [])
  insert_row-Perm x (y ∷ ys) = elim (Bool-cases (order.lt (key x) (key y))) [
    | inl t ↦ rw t (Perm.refl (x ∷ y ∷ ys))
    | inr f ↦ rw f (Perm.trans (Perm.cons y (insert_row-Perm x ys)) (Perm.swap x y ys))
  ]

  -- The same rows, as often.
  pub order_by-Perm : (xs : List R) → Perm (order_by order key xs) xs
  unfolding order_by
  order_by-Perm [] = Perm.refl []
  order_by-Perm (x ∷ xs) =
      Perm.trans (insert_row-Perm x (order_by order key xs)) (Perm.cons x (order_by-Perm xs))

  length-insert_row : (x : R) (ys : List R) → length (insert_row order key x ys) ≡ suc (length ys)
  length-insert_row x [] = refl
  length-insert_row x (y ∷ ys) = ground (arith, length-insert_row x ys)

  pub length-order_by : (xs : List R) → length (order_by order key xs) ≡ length xs
  unfolding order_by
  length-order_by [] = refl
  length-order_by (x ∷ xs) =
      length-insert_row x (order_by order key xs) ∙ ap suc (length-order_by xs)

  Above-append :
      (c : K) (xs ys : List R)
      → Above order key c xs
      → Above order key c ys
      → Above order key c (xs ++ ys)
  Above-append c xs ys h k = All-append (λ r. order.lt c (key r) ≡ true) xs ys h k

  -- A page that increases, with what is above its last row, increases.
  Increasing-page :
      (r : R) (rs ys : List R)
      → Increasing order key (r ∷ rs)
      → Above order key (key (last_of r rs)) ys
      → Increasing order key ys
      → Increasing order key ((r ∷ rs) ++ ys) × Above order key (key r) ys
  Increasing-page r [] ys h k m = ((k, m), k)
  Increasing-page r (s ∷ rs) ys (above, h) k m =
      let (rest, past_s) = Increasing-page s rs ys h k m in
      let past_r = Above-trans order key (key r) (key s) ys above.0 past_s in
      ((Above-append (key r) (s ∷ rs) ys above past_r, rest), past_r)

  -- What a page must be: increasing, and past the cursor.
  abbrev pub IsPage : Option K → List R → Type 0
  IsPage none rows = Increasing order key rows
  IsPage (some c) rows = Increasing order key rows × Above order key c rows

  IsPage-Increasing :
      (cursor : Option K) (rows : List R) → IsPage cursor rows → Increasing order key rows
  IsPage-Increasing none rows h = h
  IsPage-Increasing (some c) rows h = h.0

  IsPage-append :
      (cursor : Option K) (r : R) (rs ys : List R)
      → IsPage cursor (r ∷ rs)
      → IsPage (some (key (last_of r rs))) ys
      → IsPage cursor ((r ∷ rs) ++ ys)
  IsPage-append none r rs ys h (m, k) = (Increasing-page r rs ys h k m).0
  IsPage-append (some c) r rs ys (h, a) (m, k) =
      let (both, past_r) = Increasing-page r rs ys h k m in
      (both, Above-append c (r ∷ rs) ys a (Above-trans order key c (key r) ys a.0 past_r))

  module _ (fetch : ℕ → Option K → List R) (page_size : ℕ)
      (pages : (i : ℕ) (cursor : Option K) → IsPage cursor (fetch i cursor)) where
    yield_page-IsPage :
        (resume : K → List R × Bool) (cursor : Option K) (p : List R)
        → IsPage cursor p
        → ((c : K) → IsPage (some c) (resume c).0)
        → IsPage cursor (yield_page order key page_size resume p).0
    yield_page-IsPage resume cursor [] h ih = h
    yield_page-IsPage resume cursor (r ∷ rs) h ih =
        elim (Bool-cases (ltb (length (r ∷ rs)) page_size)) [
          | inl t ↦ rw t h
          | inr f ↦ rw f (
              IsPage-append cursor r rs (resume (key (last_of r rs))).0 h (ih (key (last_of r rs))))
        ]

    keyset_pages-IsPage :
        (fuel i : ℕ) (cursor : Option K)
        → IsPage cursor (keyset_pages order key fuel fetch page_size i cursor).0
    unfolding keyset_pages
    keyset_pages-IsPage zero i none = tt
    keyset_pages-IsPage zero i (some c) = (tt, tt)
    keyset_pages-IsPage (suc fuel) i cursor =
        yield_page-IsPage (λ c. keyset_pages order key fuel fetch page_size (i + 1) (some c)) cursor
          (fetch i cursor) (pages i cursor) (λ c. keyset_pages-IsPage fuel (i + 1) (some c))

    -- Whatever others do to the table between the pages, as long as each page is in the order of the key
    -- and past the key that it resumes after, the keys of all rows that are ever yielded increase
    -- strictly: no row is yielded twice.
    pub keyset_pages-Increasing :
        (fuel : ℕ) → Increasing order key (keyset_pages order key fuel fetch page_size 0 none).0
    keyset_pages-Increasing fuel = keyset_pages-IsPage fuel 0 none
