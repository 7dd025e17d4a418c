-- ===== src/Review/Recording.antt =====
-- The loop of `record_session`: what it has staged after the types of a list, or that it has committed
-- nothing.
use apm.Shared.{
  ℕ, ◌≡◌, ◌⊎◌, refl, sym, Bool, true, false, not, ◌&&◌, ◌||◌, List, [], ◌∷◌, ◌++◌, Option, none,
  some, String, str_eq, str_eq_iff, ◌==◌, ==_iff, arith, if◌then◌else◌, UserKey, user_key_instance,
  string_eq, Bool-cases, inl, inr,
}
use apm.Shared.Dict.{Dict, lookup, insert, lookup-insert}
use mathlib.Core.Path.{subst}
use apm.Database.{database_error, Db, Result, ok, err}
use apm.Review.{ReviewState}
use apm.Review.Service.{Items, types_of, keys, new_state, record_all}

abbrev pub elem : String → List String → Bool
elem t [] = false
elem t (x ∷ xs) = str_eq x t || elem t xs

pub elem-append : (t : String) (xs ys : List String) → elem t (xs ++ ys) ≡ (elem t xs || elem t ys)
elem-append t [] ys = refl
elem-append t (x ∷ xs) ys = ground (arith, elem-append t xs ys)

abbrev pub is_some : {A : Type 0} → Option A → Bool
is_some none = false
is_some (some _) = true

pub elem-types_of :
    (user : ℕ) (t : String) (d : Items) → elem t (types_of user d) ≡ is_some (lookup (user, t) d)
elem-types_of user t [] = refl
elem-types_of user t (((u, x), s) ∷ d) =
    ground (arith, ==_iff u user, str_eq_iff x t, elem-types_of user t d)

pub elem-keys : (t : String) (d : Dict String String) → elem t (keys d) ≡ is_some (lookup t d)
elem-keys t [] = refl
elem-keys t ((k, v) ∷ d) = ground (arith, str_eq_iff k t, elem-keys t d)

module _ (is_blank : String → Bool) (user : ℕ) (existing : Items) (seen : Dict String String)
    (now : ℕ) where
  -- The row of a key after the types of a list were processed.
  abbrev pub after : List String → Items → UserKey → Option ReviewState
  after ts d k =
      if (user == k.0) && (elem k.1 ts && not (is_blank k.1))
      then some (new_state user existing seen now k.1)
      else lookup k d

  abbrev pub Recorded : List String → Db Items → Result (Unit {0}) × Db Items → Type 0
  Recorded ts db (ok _, db') =
      (db'.committed ≡ db.committed)
      × ((k : UserKey) → lookup k db'.working ≡ after ts db.working k)
  Recorded ts db (err _, db') = db'.committed ≡ db.committed

  Recorded-blank :
      (t : String) (ts : List String) (db : Db Items) (res : Result (Unit {0}) × Db Items)
      → is_blank t ≡ true
      → Recorded ts db res
      → Recorded (t ∷ ts) db res
  Recorded-blank t ts db (ok u, db') e h = (h.0, λ k. ground (arith, h.1 k, str_eq_iff t k.1))
  Recorded-blank t ts db (err x, db') e h = h

  -- The session after the row of `t` was staged; `fs` are the statements to come.
  abbrev staged : String → List Bool → Db Items → Db Items
  staged t fs db = record db {
    working = insert (user, t) (new_state user existing seen now t) db.working;
    faults = fs;
  }

  Recorded-staged :
      (t : String) (ts : List String) (fs : List Bool) (db : Db Items)
      (res : Result (Unit {0}) × Db Items)
      → is_blank t ≡ false
      → Recorded ts (staged t fs db) res
      → Recorded (t ∷ ts) db res
  Recorded-staged t ts fs db (ok u, db') e h = (
    h.0,
    λ k. ground (
      arith,
      h.1 k,
      str_eq_iff t k.1,
      ==_iff user k.0,
      lookup-insert (user, t) k (new_state user existing seen now t) db.working,
    ),
  )
  Recorded-staged t ts fs db (err x, db') e h = h

  -- The next statement fails, or the loop goes on.
  record_all-cases :
      (t : String) (ts : List String) (db : Db Items)
      → is_blank t ≡ false
      → ((record_all is_blank user existing seen now (t ∷ ts) db).0 ≡ err database_error)
          × ((record_all is_blank user existing seen now (t ∷ ts) db).1.committed ≡ db.committed)
        ⊎ ((fs : List Bool) × (record_all is_blank user existing seen now (t ∷ ts) db
              ≡ record_all is_blank user existing seen now ts (staged t fs db)))
  unfolding record_all
  record_all-cases t ts db e = go db.faults refl
    where
      go :
          (fs : List Bool)
          → db.faults ≡ fs
          → ((record_all is_blank user existing seen now (t ∷ ts) db).0 ≡ err database_error)
              × ((record_all is_blank user existing seen now (t ∷ ts) db).1.committed
                  ≡ db.committed)
            ⊎ ((fs' : List Bool) × (record_all is_blank user existing seen now (t ∷ ts) db
                  ≡ record_all is_blank user existing seen now ts (staged t fs' db)))
      go [] f = inr ([], ground arith)
      go (true ∷ fs) f = inl (ground arith, ground arith)
      go (false ∷ fs) f = inr (fs, ground arith)

  record_all_blank :
      (t : String) (ts : List String) (db : Db Items)
      → is_blank t ≡ true
      → record_all is_blank user existing seen now (t ∷ ts) db
        ≡ record_all is_blank user existing seen now ts db
  unfolding record_all
  record_all_blank t ts db e = ground arith

  Recorded-failed :
      (ts : List String) (db : Db Items) (res : Result (Unit {0}) × Db Items)
      → res.0 ≡ err database_error
      → res.1.committed ≡ db.committed
      → Recorded ts db res
  Recorded-failed ts db (ok u, db') e h = absurd (cc)
  Recorded-failed ts db (err x, db') e h = h

  pub record_all-Recorded :
      (ts : List String) (db : Db Items)
      → Recorded ts db (record_all is_blank user existing seen now ts db)
  record_all-Recorded [] db = unfold record_all in (refl, λ k. ground arith)
  record_all-Recorded (t ∷ ts) db =
      let ih = record_all-Recorded ts in
      elim (Bool-cases (is_blank t)) [
        | inl blank ↦
            subst (Recorded (t ∷ ts) db) (sym (record_all_blank t ts db blank))
              (Recorded-blank t ts db _ blank (ih db))
        | inr text ↦ elim (record_all-cases t ts db text) [
          | inl (failed, same) ↦ Recorded-failed (t ∷ ts) db _ failed same
          | inr (fs, e) ↦
              subst (Recorded (t ∷ ts) db) (sym e)
                (Recorded-staged t ts fs db _ text (ih (staged t fs db)))
        ]
      ]
