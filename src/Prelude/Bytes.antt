-- ===== src/Prelude/Bytes.antt =====
-- Rust's `to_be_bytes` and `from_be_bytes` at every width, and their round trips.
use Prim.Native.Nat.{ℕ, zero, suc, ◌+◌, ◌*◌, ◌/◌, ◌%◌, ◌^◌, ◌<◌}
use mathlib.Core.Path.{◌≡◌, refl, ap, sym, subst, ◌∙◌}
use mathlib.Core.List.{List, [], ◌∷◌, ◌++◌, reverse, reverse-cons, reverse-reverse}
use native.Mathlib.Omega.{arith}
use native.Mathlib.Nat.{pow-suc}
use desk_unlock.Prelude.Lists.{length, length-append, All, AreBytes, IsByte}

-- Least significant byte first.
le_bytes : ℕ → ℕ → List ℕ
le_bytes zero v = []
le_bytes (suc k) v = (v % 256) ∷ le_bytes k (v / 256)

from_le : List ℕ → ℕ
from_le [] = 0
from_le (b ∷ bs) = b + 256 * from_le bs

unfoldable pub to_be_bytes : ℕ → ℕ → List ℕ
unfolding le_bytes
to_be_bytes k v = reverse (le_bytes k v)

unfoldable pub from_be_bytes : List ℕ → ℕ
unfolding from_le
from_be_bytes bs = from_le (reverse bs)

from_le-le_bytes : (k v : ℕ) → v < 256 ^ k → from_le (le_bytes k v) ≡ v
unfolding from_le le_bytes
from_le-le_bytes zero v h = omega arith
from_le-le_bytes (suc k) v h =
    omega (arith, from_le-le_bytes k (v / 256) (omega (arith, pow-suc 256 k)))

length-le_bytes : (k v : ℕ) → length (le_bytes k v) ≡ k
unfolding le_bytes
length-le_bytes zero v = refl
length-le_bytes (suc k) v = ap suc (length-le_bytes k (v / 256))

length-snoc {ℓ} : {A : Type ℓ} (xs : List A) (x : A) → length (xs ++ x ∷ []) ≡ suc (length xs)
length-snoc xs x = omega (arith, length-append xs (x ∷ []))

pub length-reverse {ℓ} : {A : Type ℓ} (xs : List A) → length (reverse xs) ≡ length xs
length-reverse [] = refl
length-reverse (x ∷ xs) =
    ap length (reverse-cons x xs) ∙ length-snoc (reverse xs) x ∙ ap suc (length-reverse xs)

le_bytes-from_le : (bs : List ℕ) → AreBytes bs → le_bytes (length bs) (from_le bs) ≡ bs
unfolding from_le le_bytes
le_bytes-from_le [] h = refl
le_bytes-from_le (b ∷ bs) h = ground (
  arith,
  le_bytes-from_le bs h.1,
  ap (le_bytes (length bs)) {x = (b + 256 * from_le bs) / 256} {y = from_le bs}
      (omega (arith, h.0)),
)

All-append {ℓ κ} :
    {A : Type ℓ} (P : A → Type κ) (xs ys : List A) → All P xs → All P ys → All P (xs ++ ys)
All-append P [] ys hx hy = hy
All-append P (x ∷ xs) ys hx hy = (hx.0, All-append P xs ys hx.1 hy)

AreBytes-reverse : (bs : List ℕ) → AreBytes bs → AreBytes (reverse bs)
AreBytes-reverse [] h = tt
AreBytes-reverse (b ∷ bs) h =
    subst AreBytes (sym (reverse-cons b bs))
      (All-append IsByte (reverse bs) (b ∷ []) (AreBytes-reverse bs h.1) (h.0, tt))

-- A number below 256 ^ k is read back from its k bytes.
pub from_be_bytes-to_be_bytes : (k v : ℕ) → v < 256 ^ k → from_be_bytes (to_be_bytes k v) ≡ v
unfolding from_be_bytes to_be_bytes
from_be_bytes-to_be_bytes k v h =
    ap from_le (reverse-reverse (le_bytes k v)) ∙ from_le-le_bytes k v h

pub length-to_be_bytes : (k v : ℕ) → length (to_be_bytes k v) ≡ k
unfolding to_be_bytes
length-to_be_bytes k v = length-reverse (le_bytes k v) ∙ length-le_bytes k v

-- Bytes are written back from the number that they stand for.
pub to_be_bytes-from_be_bytes :
    (k : ℕ) (bs : List ℕ) → length bs ≡ k → AreBytes bs → to_be_bytes k (from_be_bytes bs) ≡ bs
unfolding from_be_bytes to_be_bytes
to_be_bytes-from_be_bytes k bs e h =
    ap reverse (
      subst (λ n. le_bytes n (from_le (reverse bs)) ≡ reverse bs) (length-reverse bs ∙ e)
        (le_bytes-from_le (reverse bs) (AreBytes-reverse bs h)))
    ∙ reverse-reverse bs
