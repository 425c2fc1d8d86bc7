-- ===== src/Fragments.antt =====
-- `reassemble` of crates/syauth-transport/src/bluez.rs, which joins the segments of a frame.
pub mod Laws
use desk_unlock.Prelude.{
  ℕ, ◌/◌, ◌%◌, Bool, true, false, not, List, [], ◌∷◌, ◌++◌, ◌==◌, if◌then◌else◌, Result, ok, err,
}

pub data TransportError : Type 0 where
  incomplete_reassembly : TransportError

-- `header & FRAGMENT_MORE_BIT != 0` of a byte.
abbrev pub more : ℕ → Bool
more header = not (header / 128 % 2 == 0)

abbrev prepended : List ℕ → Result TransportError (List ℕ) → Result TransportError (List ℕ)
prepended payload (ok rest) = ok (payload ++ rest)
prepended payload (err e) = err e

-- The loop, which checks a segment against its place, the last or not.
unfoldable pub segments_from : List (List ℕ) → Result TransportError (List ℕ)
segments_from [] = ok []
segments_from ([] ∷ _) = err TransportError.incomplete_reassembly
segments_from ((header ∷ payload) ∷ []) =
    if more header then err TransportError.incomplete_reassembly else ok payload
segments_from ((header ∷ payload) ∷ next ∷ segments) =
    let rest = segments_from (next ∷ segments) in
    if more header then prepended payload rest else err TransportError.incomplete_reassembly

unfoldable pub reassemble : List (List ℕ) → Result TransportError (List ℕ)
reassemble [] = err TransportError.incomplete_reassembly
reassemble (segment ∷ segments) = segments_from (segment ∷ segments)
