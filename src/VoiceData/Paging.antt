-- ===== src/VoiceData/Paging.antt =====
-- Pages in the order of a key: every row once, in finitely many pages, and no row twice even when
-- others change the table between pages.
use apm.Shared.{
  ℕ, zero, suc, ◌+◌, ◌<◌, ◌≡◌, refl, sym, ap, ◌∙◌, Bool, true, false, Bool-cases, inl, inr, List,
  [], ◌∷◌, ◌++◌, Option, none, some, ltb, length, take, drop, take-append-drop, length-drop, ltb→lt,
  append_assoc, arith,
}
use mathlib.Core.Path.{subst}
use apm.Shared.Table.{select_where, All}
use apm.VoiceData.Pages.{Order, past_cursor, page, last_of, yield_page, keyset_pages}

take_none : {A : Type 0} (n : ℕ) (xs : List A) → 0 < n → take n xs ≡ [] → xs ≡ []
take_none n [] h e = refl
take_none zero (x ∷ xs) h e = absurd (omega arith)
take_none (suc n) (x ∷ xs) h e = absurd (cc)

take_short : {A : Type 0} (n : ℕ) (xs : List A) → length (take n xs) < n → take n xs ≡ xs
take_short zero xs h = absurd (omega arith)
take_short (suc n) [] h = refl
take_short (suc n) (x ∷ xs) h = ap (λ l. x ∷ l) (take_short n xs (omega (arith, h)))

not_none :
    {A : Type 0} (n : ℕ) (xs : List A) (r : A) (rs : List A) → take n xs ≡ r ∷ rs → 0 < length xs
not_none zero xs r rs e = absurd (cc)
not_none (suc n) [] r rs e = absurd (cc)
not_none (suc n) (x ∷ xs) r rs e = omega arith

drop_shorter :
    {A : Type 0} (n : ℕ) (xs : List A) (fuel : ℕ)
    → 0 < n
    → 0 < length xs
    → length xs < suc fuel
    → length (drop n xs) < fuel
drop_shorter n xs fuel h k l = let e = length-drop n xs in omega (arith, e)

module _ {K R : Type 0} (order : Order K) (key : R → K) where
  abbrev pub Above : K → List R → Type 0
  Above c = All (λ r. order.lt c (key r) ≡ true)

  -- The keys increase strictly.
  abbrev pub Increasing : List R → Type 0
  Increasing [] = Unit
  Increasing (x ∷ xs) = Above (key x) xs × Increasing xs

  pub Above-trans : (a b : K) (xs : List R) → order.lt a b ≡ true → Above b xs → Above a xs
  Above-trans a b [] h k = tt
  Above-trans a b (x ∷ xs) h k = (order.trans a b (key x) h k.0, Above-trans a b xs h k.1)

  lt-asym : (a b : K) → order.lt a b ≡ true → order.lt b a ≡ false
  lt-asym a b h = elim (Bool-cases (order.lt b a)) [
    | inr f ↦ f
    | inl t ↦ absurd (let p = order.trans a b a h t in let q = order.irrefl a in cc)
  ]

  select-Above : (c : K) (xs : List R) → Above c xs → select_where (λ r. order.lt c (key r)) xs ≡ xs
  select-Above c [] h = refl
  select-Above c (x ∷ xs) h = rw h.0 (ap (λ l. x ∷ l) (select-Above c xs h.1))

  -- What is past a row of the sorted table is what stands after it.
  past-row :
      (xs : List R) (y : R) (zs : List R)
      → Increasing (xs ++ (y ∷ zs))
      → past_cursor order key (some (key y)) (xs ++ (y ∷ zs)) ≡ zs
  past-row [] y zs h = rw (order.irrefl (key y)) (select-Above (key y) zs h.0)
  past-row (x ∷ xs) y zs h =
      rw (lt-asym (key x) (key y) (first_below xs h.0)) (past-row xs y zs h.1)
    where
      first_below : (ws : List R) → Above (key x) (ws ++ (y ∷ zs)) → order.lt (key x) (key y) ≡ true
      first_below [] k = k.0
      first_below (w ∷ ws) k = first_below ws k.1

  -- All rows of a page but its last.
  init_of : R → List R → List R
  init_of r [] = []
  init_of r (s ∷ rest) = r ∷ init_of s rest

  init-last : (r : R) (rs : List R) → init_of r rs ++ (last_of r rs ∷ []) ≡ r ∷ rs
  unfolding init_of
  init-last r [] = refl
  init-last r (s ∷ rest) = ap (λ l. r ∷ l) (init-last s rest)

  Increasing-drop : (xs ys : List R) → Increasing (xs ++ ys) → Increasing ys
  Increasing-drop [] ys h = h
  Increasing-drop (x ∷ xs) ys h = Increasing-drop xs ys h.1

  -- The pages of a table that does not change between them.
  module _ (rows : List R) (page_size : ℕ) (sorted : Increasing rows)
      (positive : 0 < page_size) where
    abbrev pub stable : ℕ → Option K → List R
    stable i cursor = page order key page_size cursor rows

    after_page :
        (r : R) (rs seen left : List R)
        → seen ++ ((r ∷ rs) ++ left) ≡ rows
        → past_cursor order key (some (key (last_of r rs))) rows ≡ left
    after_page r rs seen left e =
        let split : (seen ++ init_of r rs) ++ (last_of r rs ∷ left) ≡ rows =
          append_assoc seen (init_of r rs) (last_of r rs ∷ left)
          ∙ (ap (λ l. seen ++ l)
                (sym (append_assoc (init_of r rs) (last_of r rs ∷ []) left)
                  ∙ ap (λ l. l ++ left) (init-last r rs))
              ∙ e) in
        subst (λ all. past_cursor order key (some (key (last_of r rs))) all ≡ left) split
          (past-row (seen ++ init_of r rs) (last_of r rs) left
            (subst Increasing (sym split) sorted))

    abbrev resume : ℕ → ℕ → K → List R × Bool
    resume fuel i c = keyset_pages order key fuel stable page_size (i + 1) (some c)

    -- One page, when the rest of the loop yields what is left.
    page_of :
        (fuel i : ℕ) (seen rest p : List R)
        → seen ++ rest ≡ rows
        → length rest < suc fuel
        → take page_size rest ≡ p
        → ((c : K) (s l : List R)
            → s ++ l ≡ rows
            → past_cursor order key (some c) rows ≡ l
            → length l < fuel
            → resume fuel i c ≡ (l, true))
        → yield_page order key page_size (resume fuel i) p ≡ (rest, true)
    page_of fuel i seen rest [] e h t ih =
        ap (λ l. (l, true)) (sym (take_none page_size rest positive t))
    page_of fuel i seen rest (r ∷ rs) e h t ih =
        elim (Bool-cases (ltb (length (r ∷ rs)) page_size)) [
          | inl short ↦ rw short (
              ap (λ l. (l, true))
                (sym t
                  ∙ take_short page_size rest (
                      subst (λ l. length l < page_size) (sym t)
                        (ltb→lt (length (r ∷ rs)) page_size short))))
          | inr full ↦
              let left = drop page_size rest in
              let split : (r ∷ rs) ++ left ≡ rest =
                ap (λ l. l ++ left) (sym t) ∙ take-append-drop page_size rest in
              let whole : seen ++ ((r ∷ rs) ++ left) ≡ rows = ap (λ l. seen ++ l) split ∙ e in
              let more =
                ih (key (last_of r rs)) (seen ++ (r ∷ rs)) left
                  (append_assoc seen (r ∷ rs) left ∙ whole) (after_page r rs seen left whole)
                  (drop_shorter page_size rest fuel positive (not_none page_size rest r rs t) h) in
              rw (full, more) (ap (λ l. (l, true)) split)
        ]

    keyset_pages-rest :
        (fuel i : ℕ) (cursor : Option K) (seen rest : List R)
        → seen ++ rest ≡ rows
        → past_cursor order key cursor rows ≡ rest
        → length rest < fuel
        → keyset_pages order key fuel stable page_size i cursor ≡ (rest, true)
    unfolding keyset_pages
    keyset_pages-rest zero i cursor seen rest e q h = absurd (omega arith)
    keyset_pages-rest (suc fuel) i cursor seen rest e q h =
        ap (λ l. yield_page order key page_size (resume fuel i) (take page_size l)) q
        ∙ page_of fuel i seen rest (take page_size rest) e h refl
            (λ c s l. keyset_pages-rest fuel (i + 1) (some c) s l)

    -- A table whose keys increase and which does not change is yielded whole and once, in its order, and
    -- the generator returns: as many pages as there are rows, and one, are enough, whatever the positive
    -- size of a page.
    pub keyset_pages-all :
        (fuel : ℕ)
        → length rows < fuel
        → keyset_pages order key fuel stable page_size 0 none ≡ (rows, true)
    keyset_pages-all fuel enough = keyset_pages-rest fuel 0 none [] rows refl refl enough
