-- ===== src/Prelude/Texts.antt =====
-- Equality tests on texts, and equations between options.
use Prim.Native.String.{String}
use mathlib.Core.Path.{◌≡◌}
use mathlib.Core.Logic.{◌≢◌, inl, inr}
use mathlib.Core.Bool.{true, false}
use mathlib.Core.Option.{Option, some}
use native.Mathlib.Omega.{arith}
use text.Mathlib.Text.{◌==◌ as str_eq}
use text.Mathlib.TextEquality.{eq_iff}
use text.Mathlib.TextPositions.{eq_refl}
use desk_unlock.Prelude.Tests.{Bool-cases}

pub str_eq_refl : (a : String) → str_eq a a ≡ true
str_eq_refl a = eq_refl a

pub str_eq→eq : (a b : String) → str_eq a b ≡ true → a ≡ b
str_eq→eq a b h = (eq_iff a b).0 h

pub eq→str_eq : (a b : String) → a ≡ b → str_eq a b ≡ true
eq→str_eq a b e = (eq_iff a b).1 e

pub str_neq : (a b : String) → a ≢ b → str_eq a b ≡ false
str_neq a b n = elim (Bool-cases (str_eq a b)) [ inl e ↦ absurd (n (str_eq→eq a b e)) | inr e ↦ e ]

pub neq-str_eq : (a b : String) → str_eq a b ≡ false → a ≢ b
neq-str_eq a b h e = ground (arith, eq→str_eq a b e)

pub some-injective {ℓ} : {A : Type ℓ} {a b : A} → ◌≡◌ {A = Option A} (some a) (some b) → a ≡ b
some-injective h = cc
