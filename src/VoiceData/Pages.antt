-- ===== src/VoiceData/Pages.antt =====
-- `_keyset_pages` of backend/app/features/voice_data/repository.py: rows page by page, each from a fresh
-- session that resumes after the last key, and the order of the keys.
use apm.Shared.{
  ℕ, zero, suc, ◌+◌, ◌≡◌, Bool, true, false, ◌&&◌, ◌||◌, List, [], ◌∷◌, ◌++◌, Option, none, some,
  ltb, ◌==◌, if◌then◌else◌, length, take, arith,
}
use apm.Shared.Table.{select_where}

-- A strict total order of keys.
pub record Order (K : Type 0) : Type 0 where
  pub lt : K → K → Bool
  pub irrefl : (a : K) → lt a a ≡ false
  pub trans : (a b c : K) → lt a b ≡ true → lt b c ≡ true → lt a c ≡ true
  pub total : (a b : K) → lt a b ≡ false → lt b a ≡ false → a ≡ b

pub ltb_irrefl : (a : ℕ) → ltb a a ≡ false
ltb_irrefl a = ground arith

pub ltb_trans : (a b c : ℕ) → ltb a b ≡ true → ltb b c ≡ true → ltb a c ≡ true
ltb_trans a b c h k = ground arith

pub ltb_total : (a b : ℕ) → ltb a b ≡ false → ltb b a ≡ false → a ≡ b
ltb_total a b h k = ground arith

abbrev pub by_id : Order ℕ
by_id = record { lt = ltb; irrefl = ltb_irrefl; trans = ltb_trans; total = ltb_total }

-- `tuple_(a, b) > tuple_(*cursor)`
abbrev pub pair_lt : ℕ × ℕ → ℕ × ℕ → Bool
pair_lt a b = ltb a.0 b.0 || ((a.0 == b.0) && ltb a.1 b.1)

pub pair_lt_irrefl : (a : ℕ × ℕ) → pair_lt a a ≡ false
pair_lt_irrefl a = ground arith

pub pair_lt_trans : (a b c : ℕ × ℕ) → pair_lt a b ≡ true → pair_lt b c ≡ true → pair_lt a c ≡ true
pair_lt_trans a b c h k = ground arith

pub pair_lt_total : (a b : ℕ × ℕ) → pair_lt a b ≡ false → pair_lt b a ≡ false → a ≡ b
pair_lt_total a b h k = ground arith

abbrev pub by_pair : Order (ℕ × ℕ)
by_pair = record {
  lt = pair_lt;
  irrefl = pair_lt_irrefl;
  trans = pair_lt_trans;
  total = pair_lt_total;
}

-- The last of a page that is not empty.
abbrev pub last_of : {R : Type 0} → R → List R → R
last_of r [] = r
last_of r (s ∷ rest) = last_of s rest

module _ {K R : Type 0} (order : Order K) (key : R → K) where
  -- `WHERE key > cursor`, once there is one.
  abbrev pub past_cursor : Option K → List R → List R
  past_cursor none rows = rows
  past_cursor (some c) rows = select_where (λ r. order.lt c (key r)) rows

  -- `ORDER BY key`
  abbrev pub insert_row : R → List R → List R
  insert_row x [] = x ∷ []
  insert_row x (y ∷ ys) = if order.lt (key x) (key y) then x ∷ y ∷ ys else y ∷ insert_row x ys

  unfoldable pub order_by : List R → List R
  order_by [] = []
  order_by (x ∷ xs) = insert_row x (order_by xs)

  -- `WHERE ... ORDER BY ... LIMIT page_size`
  abbrev pub page : ℕ → Option K → List R → List R
  page page_size cursor rows = take page_size (past_cursor cursor rows)

  -- The rows of one page, and what the rest of the loop does from the key of the last.
  abbrev pub yield_page : ℕ → (K → List R × Bool) → List R → List R × Bool
  yield_page page_size resume [] = ([], true)
  yield_page page_size resume (r ∷ rs) =
      if ltb (length (r ∷ rs)) page_size
      then (r ∷ rs, true)
      else (let more = resume (key (last_of r rs)) in ((r ∷ rs) ++ more.0, more.1))

  -- `fetch i cursor` is what the i-th fresh session returns. The rows that are yielded, and whether the
  -- generator has returned before the fuel is used up.
  unfoldable pub keyset_pages :
      (fuel : ℕ)
      → (fetch : ℕ → Option K → List R) → (page_size i : ℕ) → (cursor : Option K) → List R × Bool
  keyset_pages zero fetch page_size i cursor = ([], false)
  keyset_pages (suc fuel) fetch page_size i cursor =
      yield_page page_size (λ c. keyset_pages fuel fetch page_size (i + 1) (some c))
        (fetch i cursor)
