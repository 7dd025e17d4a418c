-- ===== src/Shared/Occurs.antt =====
-- What occurs in a list.
use apm.Shared.Tests.{Bool-cases}
use apm.Shared.Table.{select_where}
use mathlib.Core.Path.{◌≡◌, sym, ap, ◌∙◌}
use mathlib.Core.Bool.{Bool, true}
use mathlib.Core.List.{List, [], ◌∷◌, ◌++◌}
use mathlib.Core.Logic.{◌⊎◌, inl, inr}

abbrev pub In : {A : Type 0} → A → List A → Type 0
In x [] = ⊥
In x (y ∷ ys) = (x ≡ y) ⊎ In x ys

module _ {A : Type 0} where
  pub In-append : (x : A) (xs ys : List A) → In x (xs ++ ys) → In x xs ⊎ In x ys
  In-append x [] ys h = inr h
  In-append x (z ∷ xs) ys (inl e) = inl (inl e)
  In-append x (z ∷ xs) ys (inr h) = elim (In-append x xs ys h) [
    | inl a ↦ inl (inr a)
    | inr b ↦ inr b
  ]

  pub In-append_left : (x : A) (xs ys : List A) → In x xs → In x (xs ++ ys)
  In-append_left x [] ys h = absurd h
  In-append_left x (z ∷ xs) ys (inl e) = inl e
  In-append_left x (z ∷ xs) ys (inr h) = inr (In-append_left x xs ys h)

  pub In-append_right : (x : A) (xs ys : List A) → In x ys → In x (xs ++ ys)
  In-append_right x [] ys h = h
  In-append_right x (z ∷ xs) ys h = inr (In-append_right x xs ys h)

  pub In-select :
      (p : A → Bool) (x : A) (xs : List A) → In x (select_where p xs) → In x xs × (p x ≡ true)
  In-select p x [] h = absurd h
  In-select p x (y ∷ ys) h = elim (Bool-cases (p y)) [
    | inr f ↦ let r = In-select p x ys (rw f at h) in (inr r.0, r.1)
    | inl t ↦ elim (rw t at h) as (λ _. In x (y ∷ ys) × (p x ≡ true)) [
      | inl e ↦ (inl e, ap p e ∙ t)
      | inr k ↦ let r = In-select p x ys k in (inr r.0, r.1)
    ]
  ]

  pub In-select_back :
      (p : A → Bool) (x : A) (xs : List A) → In x xs → p x ≡ true → In x (select_where p xs)
  In-select_back p x [] h t = absurd h
  In-select_back p x (y ∷ ys) (inl e) t = rw (sym (ap p e) ∙ t) (inl e)
  In-select_back p x (y ∷ ys) (inr h) t = elim (Bool-cases (p y)) [
    | inr f ↦ rw f (In-select_back p x ys h t)
    | inl q ↦ rw q (inr (In-select_back p x ys h t))
  ]
