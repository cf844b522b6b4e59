-- ===== src/Common/Equality.antt =====
-- Keys that the program compares by `===`, as an interface with two instances.
use Prim.Native.Nat.{ℕ}
use Prim.Native.String.{String}
use mathlib.Core.Path.{◌≡◌}
use mathlib.Core.Logic.{◌↔◌}
use mathlib.Core.Bool.{Bool, true}
use native.Mathlib.Omega.{arith}
use text.Mathlib.Text.{◌==◌ as str_eq}
use text.Mathlib.TextEquality.{eq_iff}
use graphqlade.Common.Tests.{nat_beq}

-- A type whose values `===` compares by what they are.
pub record Eq {ℓ} (Key : Type ℓ) : Type ℓ where
  pub equal : Key → Key → Bool
  pub equal_iff : (j k : Key) → (equal j k ≡ true) ↔ (j ≡ k)

module _ {ℓ} {Key : Type ℓ} ⦃keys : Eq Key⦄ where
  infix 50 ◌===◌
  abbrev pub ◌===◌ : Key → Key → Bool
  j === k = keys.equal j k

pub nat_equal_iff : (a b : ℕ) → (nat_beq a b ≡ true) ↔ (a ≡ b)
nat_equal_iff a b = ground arith

instance abbrev pub nat_eq : Eq ℕ
nat_eq = record { equal = nat_beq; equal_iff = nat_equal_iff }

instance abbrev pub string_eq : Eq String
string_eq = record { equal = str_eq; equal_iff = eq_iff }
