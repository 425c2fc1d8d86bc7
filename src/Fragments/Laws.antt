-- ===== src/Fragments/Laws.antt =====
-- Which lists of segments `reassemble` of crates/syauth-transport/src/bluez.rs joins.
use desk_unlock.Prelude.{
  ℕ, ◌≡◌, ◌↔◌, arith, true, false, List, [], ◌∷◌, ◌++◌, ok, Result-cases, inl, inr,
}
use desk_unlock.Fragments.{more, segments_from, reassemble}

-- Every segment but the last announces another one, and the payloads in their order are the frame.
abbrev pub IsSplit : List (List ℕ) → List ℕ → Type 0
IsSplit [] frame = ⊥
IsSplit ([] ∷ _) frame = ⊥
IsSplit ((header ∷ payload) ∷ []) frame = (more header ≡ false) × (frame ≡ payload)
IsSplit ((header ∷ payload) ∷ next ∷ segments) frame =
    (more header ≡ true)
    × ((rest : List ℕ) × (frame ≡ payload ++ rest) × IsSplit (next ∷ segments) rest)

segments_from-IsSplit :
    (segments : List (List ℕ)) (s frame : List ℕ)
    → segments_from (s ∷ segments) ≡ ok frame
    → IsSplit (s ∷ segments) frame
unfolding segments_from
segments_from-IsSplit segments [] frame h = ground arith
segments_from-IsSplit [] (header ∷ payload) frame h = ground arith
segments_from-IsSplit (next ∷ segments) (header ∷ payload) frame h =
    elim (Result-cases (segments_from (next ∷ segments))) [
      | inl (rest, e) ↦
          (ground (arith, e), (rest, ground (arith, e), segments_from-IsSplit segments next rest e))
      | inr (x, e) ↦ absurd (ground (arith, e))
    ]

IsSplit-segments_from :
    (segments : List (List ℕ)) (s frame : List ℕ)
    → IsSplit (s ∷ segments) frame
    → segments_from (s ∷ segments) ≡ ok frame
unfolding segments_from
IsSplit-segments_from segments [] frame h = absurd h
IsSplit-segments_from [] (header ∷ payload) frame (m, e) = ground arith
IsSplit-segments_from (next ∷ segments) (header ∷ payload) frame (m, (rest, e, k)) =
    ground (arith, IsSplit-segments_from segments next rest k)

-- A list of segments is joined to a frame exactly if it has at least one segment, each has a header,
-- every one but the last announces another and the last does not, and the frame is the payloads in
-- their order.
pub reassemble-IsSplit :
    (segments : List (List ℕ)) (frame : List ℕ)
    → (reassemble segments ≡ ok frame) ↔ IsSplit segments frame
unfolding reassemble
reassemble-IsSplit [] frame = (λ h. ground arith, λ h. absurd h)
reassemble-IsSplit (s ∷ segments) frame =
    (segments_from-IsSplit segments s frame, IsSplit-segments_from segments s frame)
