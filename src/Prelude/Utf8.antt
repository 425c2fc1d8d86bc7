-- ===== src/Prelude/Utf8.antt =====
-- `str::from_utf8`: which byte strings are texts. The ranges are those of the Unicode standard.
use Prim.Native.Nat.{ℕ, ◌+◌, ◌/◌, ◌%◌}
use Prim.Native.Char.{code}
use Prim.Native.String.{String}
use mathlib.Core.Path.{◌≡◌}
use mathlib.Core.Logic.{◌⊎◌, inl, inr}
use mathlib.Core.Bool.{Bool, true, false, ◌&&◌, ◌||◌}
use mathlib.Core.List.{List, [], ◌∷◌, ◌++◌}
use native.Mathlib.Omega.{arith}
use desk_unlock.Prelude.Tests.{ltb, leb, ◌==◌, if◌then◌else◌}

abbrev within : ℕ → ℕ → ℕ → Bool
within lo hi b = leb lo b && leb b hi

-- A continuation byte.
abbrev tail_byte : ℕ → Bool
tail_byte = within 128 191

-- The second byte of a sequence of three, by the first.
abbrev second_of_three : ℕ → ℕ → Bool
second_of_three a b =
    if a == 224 then within 160 191 b else if a == 237 then within 128 159 b else tail_byte b

-- The second byte of a sequence of four, by the first.
abbrev second_of_four : ℕ → ℕ → Bool
second_of_four a b =
    if a == 240 then within 144 191 b else if a == 244 then within 128 143 b else tail_byte b

unfoldable pub is_utf8 : List ℕ → Bool
is_utf8 [] = true
is_utf8 (a ∷ []) = leb a 127
is_utf8 (a ∷ b ∷ []) = (leb a 127 && is_utf8 (b ∷ [])) || (within 194 223 a && tail_byte b)
is_utf8 (a ∷ b ∷ c ∷ []) =
    (leb a 127 && is_utf8 (b ∷ c ∷ []))
    || (within 194 223 a && tail_byte b && is_utf8 (c ∷ []))
    || (within 224 239 a && second_of_three a b && tail_byte c)
is_utf8 (a ∷ b ∷ c ∷ d ∷ rest) =
    let one = is_utf8 (b ∷ c ∷ d ∷ rest) in
    let two = is_utf8 (c ∷ d ∷ rest) in
    let three = is_utf8 (d ∷ rest) in
    let four = is_utf8 rest in
    if leb a 127
    then one
    else if within 194 223 a
    then tail_byte b && two
    else if within 224 239 a
    then second_of_three a b && tail_byte c && three
    else within 240 244 a && second_of_four a b && tail_byte c && tail_byte d && four

-- The bytes of a character, by its scalar value, and of a text: `str::as_bytes`.
abbrev encode_char : ℕ → List ℕ
encode_char c =
    if ltb c 128
    then c ∷ []
    else if ltb c 2048
    then (192 + c / 64) ∷ (128 + c % 64) ∷ []
    else if ltb c 65536
    then (224 + c / 4096) ∷ (128 + c / 64 % 64) ∷ (128 + c % 64) ∷ []
    else (240 + c / 262144) ∷ (128 + c / 4096 % 64) ∷ (128 + c / 64 % 64) ∷ (128 + c % 64) ∷ []

unfoldable pub utf8 : String → List ℕ
utf8 String.[] = []
utf8 (String.◌∷◌ c s) = encode_char (code c) ++ utf8 s

-- A character in front of a text, by the bytes that it has.
cons_one : (a : ℕ) (ys : List ℕ) → leb a 127 ≡ true → is_utf8 ys ≡ true → is_utf8 (a ∷ ys) ≡ true
unfolding is_utf8
cons_one a [] h k = h
cons_one a (b ∷ []) h k = ground arith
cons_one a (b ∷ c ∷ []) h k = ground arith
cons_one a (b ∷ c ∷ d ∷ rest) h k = ground arith

cons_two :
    (a b : ℕ) (ys : List ℕ)
    → within 194 223 a && tail_byte b ≡ true
    → is_utf8 ys ≡ true
    → is_utf8 (a ∷ b ∷ ys) ≡ true
unfolding is_utf8
cons_two a b [] h k = ground arith
cons_two a b (c ∷ []) h k = ground arith
cons_two a b (c ∷ d ∷ rest) h k = ground arith

cons_three :
    (a b c : ℕ) (ys : List ℕ)
    → within 224 239 a && second_of_three a b && tail_byte c ≡ true
    → is_utf8 ys ≡ true
    → is_utf8 (a ∷ b ∷ c ∷ ys) ≡ true
unfolding is_utf8
cons_three a b c [] h k = ground arith
cons_three a b c (d ∷ rest) h k = ground arith

or_cases :
    (p q r s t : Bool)
    → (p && q) || (r && s) || t ≡ true
    → ((p ≡ true) × (q ≡ true)) ⊎ ((r ≡ true) × (s ≡ true)) ⊎ (t ≡ true)
or_cases p q r s t h = ground arith

three_cases :
    (a b c : ℕ)
    → is_utf8 (a ∷ b ∷ c ∷ []) ≡ true
    → ((leb a 127 ≡ true) × (is_utf8 (b ∷ c ∷ []) ≡ true))
      ⊎ ((within 194 223 a && tail_byte b ≡ true) × (is_utf8 (c ∷ []) ≡ true))
      ⊎ (within 224 239 a && second_of_three a b && tail_byte c ≡ true)
unfolding is_utf8
three_cases a b c h = or_cases (leb a 127) _ _ _ _ h

and_mono : (b x y : Bool) → b && x ≡ true → (x ≡ true → y ≡ true) → b && y ≡ true
and_mono true x y h k = k h
and_mono false x y h k = h

-- The four sizes of a character, each with what has to hold of the bytes behind it.
by_size :
    (p q r b c d : Bool) {w x y z w' x' y' z' : Bool}
    → (if p then w else if q then b && x else if r then c && y else d && z) ≡ true
    → (w ≡ true → w' ≡ true)
    → (x ≡ true → x' ≡ true)
    → (y ≡ true → y' ≡ true)
    → (z ≡ true → z' ≡ true)
    → (if p then w' else if q then b && x' else if r then c && y' else d && z') ≡ true
by_size true q r b c d h kw kx ky kz = kw h
by_size false true r b c d {x = x} {x' = x'} h kw kx ky kz = and_mono b x x' h kx
by_size false false true b c d {y = y} {y' = y'} h kw kx ky kz = and_mono c y y' h ky
by_size false false false b c d {z = z} {z' = z'} h kw kx ky kz = and_mono d z z' h kz

-- Two texts, one after the other, are a text.
pub is_utf8-append :
    (xs ys : List ℕ) → is_utf8 xs ≡ true → is_utf8 ys ≡ true → is_utf8 (xs ++ ys) ≡ true
unfolding is_utf8
is_utf8-append [] ys h k = k
is_utf8-append (a ∷ []) ys h k = cons_one a ys h k
is_utf8-append (a ∷ b ∷ []) ys h k =
    ground (arith, cons_one b ys, cons_one a (b ∷ ys), cons_two a b ys)
is_utf8-append (a ∷ b ∷ c ∷ []) ys h k = elim (three_cases a b c h) [
  | inl (one, rest) ↦ cons_one a (b ∷ c ∷ ys) one (is_utf8-append (b ∷ c ∷ []) ys rest k)
  | inr (inl (two, rest)) ↦ cons_two a b (c ∷ ys) two (is_utf8-append (c ∷ []) ys rest k)
  | inr (inr three) ↦ cons_three a b c ys three k
]
is_utf8-append (a ∷ b ∷ c ∷ d ∷ rest) ys h k =
    by_size (leb a 127) (within 194 223 a) (within 224 239 a) (tail_byte b)
      (second_of_three a b && tail_byte c)
      (within 240 244 a && second_of_four a b && tail_byte c && tail_byte d) h
      (λ e. is_utf8-append (b ∷ c ∷ d ∷ rest) ys e k) (λ e. is_utf8-append (c ∷ d ∷ rest) ys e k)
      (λ e. is_utf8-append (d ∷ rest) ys e k) (λ e. is_utf8-append rest ys e k)
