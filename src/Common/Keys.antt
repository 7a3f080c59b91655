-- ===== src/Common/Keys.antt =====
-- Types whose values are compared by `==`.
use Prim.Native.Nat.{ℕ}
use Prim.Native.String.{String}
use mathlib.Core.Path.{◌≡◌}
use mathlib.Core.Logic.{◌↔◌}
use mathlib.Core.Bool.{Bool, true, ◌&&◌}
use native.Mathlib.Omega.{arith}
use text.Mathlib.Text.{◌==◌ as str_eq}
use text.Mathlib.TextEquality.{eq_iff}
use modal_template_fastapi.Common.Tests.{nat_eq, nat_eq_iff}

-- A test and what it decides.
pub record Eq {κ} (K : Type κ) : Type κ where
  pub agrees : K → K → Bool
  pub agrees_iff : (j k : K) → (agrees j k ≡ true) ↔ (j ≡ k)

infix 50 ◌==◌
abbrev pub ◌==◌ {κ} : {K : Type κ} ⦃keys : Eq K⦄ → K → K → Bool
◌==◌ ⦃keys⦄ j k = keys.agrees j k

instance abbrev pub nat_keys : Eq ℕ
nat_keys = record { agrees = nat_eq; agrees_iff = nat_eq_iff }

instance abbrev pub string_keys : Eq String
string_keys = record { agrees = str_eq; agrees_iff = eq_iff }

abbrev pub pair_eq : String × String → String × String → Bool
pair_eq (a, b) (c, d) = str_eq a c && str_eq b d

pub pair_eq_iff : (a b : String × String) → (pair_eq a b ≡ true) ↔ (a ≡ b)
pair_eq_iff (a, b) (c, d) = ground (arith, eq_iff a c, eq_iff b d)

instance abbrev pub pair_keys : Eq (String × String)
pair_keys = record { agrees = pair_eq; agrees_iff = pair_eq_iff }

pub ==_refl {ℓ} : {A : Type ℓ} ⦃e : Eq A⦄ (a : A) → (a == a) ≡ true
==_refl ⦃e⦄ a = (e.agrees_iff a a).1 (λ i. a)
