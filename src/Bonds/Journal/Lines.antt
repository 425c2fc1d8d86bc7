-- ===== src/Bonds/Journal/Lines.antt =====
-- Lines and fields of a text, as `str::lines` and `field` of
-- crates/syauth-core/src/pair_recovery.rs take them.
use mathlib.Core.List.{append_assoc, append-nil}
use desk_unlock.Prelude.{◌≡◌, ◌≢◌, refl, ap, ◌∙◌, ℕ, arith, List, [], ◌∷◌, ◌++◌, All, some}
use desk_unlock.Bonds.Journal.{newline, chomp, lines_from, strip_prefix, line}

-- What stands on one line: no line end, and no carriage return at the end.
abbrev pub IsLine : List ℕ → Type 0
IsLine p = All (λ c. c ≢ 10) p × (chomp p ≡ p)

-- A name holds no line end and no carriage return.
abbrev pub IsName : List ℕ → Type 0
IsName = All (λ c. (c ≢ 10) × (c ≢ 13))

chomp-cons : (c : ℕ) (p : List ℕ) → c ≢ 13 → chomp (c ∷ p) ≡ c ∷ chomp p
unfolding chomp
chomp-cons c [] n = ground arith
chomp-cons c (d ∷ p) n = refl

pub chomp-append : (xs p : List ℕ) → IsName xs → chomp p ≡ p → chomp (xs ++ p) ≡ xs ++ p
chomp-append [] p h e = e
chomp-append (x ∷ xs) p h e = chomp-cons x (xs ++ p) h.0.1 ∙ ap (◌∷◌ x) (chomp-append xs p h.1 e)

pub lines_from-append :
    (cur p rest : List ℕ)
    → All (λ c. c ≢ 10) p
    → lines_from cur (p ++ newline ∷ rest) ≡ chomp (cur ++ p) ∷ lines_from [] rest
unfolding lines_from
lines_from-append [] [] rest h = refl
lines_from-append (c ∷ cur) [] rest h = rw append-nil refl
lines_from-append [] (x ∷ p) rest h = ground (arith, lines_from-append (x ∷ []) p rest h.1)
lines_from-append (c ∷ cur) (x ∷ p) rest h =
    ground
      (arith, lines_from-append ((c ∷ cur) ++ x ∷ []) p rest h.1, append_assoc (c ∷ cur) (x ∷ []) p)

strip_prefix-append : (name s : List ℕ) → strip_prefix name (name ++ s) ≡ some s
unfolding strip_prefix
strip_prefix-append [] s = refl
strip_prefix-append (p ∷ ps) s = ground (arith, strip_prefix-append ps s)

line-append :
    (name value rest : List ℕ)
    → line name value ++ rest ≡ (name ++ (b'=' ∷ value)) ++ newline ∷ rest
line-append name value rest = simp append_assoc

no_newline :
    (name value : List ℕ)
    → IsName name
    → All (λ c. c ≢ 10) value
    → All (λ c. c ≢ 10) (name ++ (b'=' ∷ value))
no_newline [] value n v = (λ e. ground arith, v)
no_newline (c ∷ name) value n v = (n.0.0, no_newline name value n.1 v)

-- A line at the front of a text.
pub lines_from-line :
    (name value rest : List ℕ)
    → IsName name
    → IsLine value
    → lines_from [] (line name value ++ rest) ≡ (name ++ (b'=' ∷ value)) ∷ lines_from [] rest
lines_from-line name value rest n (v, e) =
    ap (lines_from []) (line-append name value rest)
    ∙ lines_from-append [] (name ++ (b'=' ∷ value)) rest (no_newline name value n v)
    ∙ ap (λ l. l ∷ lines_from [] rest)
        (chomp-append name (b'=' ∷ value) n (chomp-cons b'=' value (omega arith) ∙ ap (◌∷◌ b'=') e))
