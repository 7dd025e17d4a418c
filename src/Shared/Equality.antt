-- ===== src/Shared/Equality.antt =====
-- Equality tests as an interface: dictionaries and tables are generic in their keys.
use Prim.Native.Nat.{ℕ}
use Prim.Native.String.{String}
use mathlib.Core.Bool.{Bool, true, ◌&&◌}
use native.Mathlib.Omega.{arith}
use mathlib.Core.Logic.{◌↔◌}
use mathlib.Core.Path.{◌≡◌}
use text.Mathlib.Text.{◌==◌ as text_eq}
use text.Mathlib.TextEquality.{eq_iff}
use apm.Shared.Tests.{◌==◌, ==_iff}

pub record Eq (A : Type 0) : Type 0 where
  pub beq : A → A → Bool
  pub beq_iff : (a b : A) → (beq a b ≡ true) ↔ (a ≡ b)

instance abbrev pub nat_eq : Eq ℕ
nat_eq = record { beq = ◌==◌; beq_iff = ==_iff }

instance abbrev pub string_eq : Eq String
string_eq = record { beq = text_eq; beq_iff = eq_iff }

abbrev pub str_eq : String → String → Bool
str_eq = text_eq

pub str_eq_iff : (a b : String) → (str_eq a b ≡ true) ↔ (a ≡ b)
str_eq_iff = eq_iff

-- A key made of a user's number and a text.
abbrev pub UserKey : Type 0
UserKey = ℕ × String

abbrev pub user_key_eq : UserKey → UserKey → Bool
user_key_eq a b = (a.0 == b.0) && str_eq a.1 b.1

pub user_key_eq_iff : (a b : UserKey) → (user_key_eq a b ≡ true) ↔ (a ≡ b)
user_key_eq_iff a b = ground (arith, ==_iff a.0 b.0, str_eq_iff a.1 b.1)

instance abbrev pub user_key_instance : Eq UserKey
user_key_instance = record { beq = user_key_eq; beq_iff = user_key_eq_iff }
