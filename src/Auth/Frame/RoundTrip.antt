-- ===== src/Auth/Frame/RoundTrip.antt =====
-- `encode`, `decode` and the signed part of the frames of crates/syauth-core, taken together.
use mathlib.Core.List.{append_assoc, append-nil}
use desk_unlock.Prelude.{
  suc, ◌≢◌, ◌==◌, ◌≡◌, ◌⊎◌, ◌≤◌, ◌<◌, refl, ap, sym, ◌∙◌, true, false, arith, ok, err, ℕ, ◌+◌, ◌-◌,
  List, [], ◌∷◌, ◌++◌, length, take, drop, get_or, length-append, take-append, drop-append,
  drop-drop, drop-field, length-field, drop-cons, drop_all, Bool-cases, inl, inr, ltb,
}
use desk_unlock.Auth.Frame.{Frame, too_short, bad_version, bad_length, encode, body_bytes, decode}

-- A frame that the type of the source holds, with the version and the payload that the wire allows.
abbrev pub IsFrame : Frame → Type 0
IsFrame f =
    (f.version ≡ 1) × (length f.nonce ≡ 16) × (length f.tag ≡ 16) × (length f.payload ≤ 4096)

-- The input that holds the three fields behind a version byte.
abbrev laid_out : List ℕ → List ℕ → List ℕ → List ℕ
laid_out nonce payload tag = 1 ∷ nonce ++ (payload ++ tag)

length-laid_out :
    (n p t : List ℕ) → length n ≡ 16 → length t ≡ 16 → length (laid_out n p t) ≡ 33 + length p
length-laid_out n p t a b = omega (arith, length-append n (p ++ t), length-append p t, a, b)

drop_nonce :
    (k : ℕ) (n p t : List ℕ) → length n ≡ 16 → drop (17 + k) (laid_out n p t) ≡ drop k (p ++ t)
drop_nonce k n p t a =
    ap (λ i. drop i (laid_out n p t)) {x = 17 + k} {y = suc (16 + k)} (omega arith)
    ∙ sym (drop-drop k 16 (n ++ (p ++ t)))
    ∙ ap (drop k) (drop-append 16 n (p ++ t) a)

-- The frame that an input with a payload of `k` bytes stands for.
abbrev parsed : ℕ → List ℕ → Frame
parsed k input = record {
  version = get_or input 0 0;
  nonce = take 16 (drop 1 input);
  payload = take k (drop 17 input);
  tag = take 16 (drop (17 + k) input);
}

-- What decides whether an input is decoded, and to which frame.
decode_accepts :
    (input : List ℕ) (k : ℕ)
    → length input ≡ 33 + k
    → k ≤ 4096
    → get_or input 0 0 ≡ 1
    → decode input ≡ ok (parsed k input)
unfolding decode
decode_accepts input k e b v =
    let same : length input - 33 ≡ k = omega (arith, e) in
    let long : ltb (length input) 33 ≡ false = ground (arith, e) in
    let fits : ltb 4096 k ≡ false = ground arith in rw (same, long, v, fits) refl

parsed-laid_out :
    (n p t : List ℕ)
    → length n ≡ 16
    → length t ≡ 16
    → parsed (length p) (laid_out n p t) ≡ record { version = 1; nonce = n; payload = p; tag = t }
parsed-laid_out n p t a b =
    let n' = take-append 16 n (p ++ t) a in
    let p' = ap (take (length p)) (drop_nonce 0 n p t a) ∙ take-append (length p) p t refl in
    let t' =
      ap (take 16) (drop_nonce (length p) n p t a ∙ drop-append (length p) p t refl)
      ∙ ap (take 16) (sym (append-nil t))
      ∙ take-append 16 t [] b in
    rw (n', p', t') refl

-- A frame is decoded from what it adds to an empty buffer.
pub decode-encode : (f : Frame) → IsFrame f → decode (encode f []).0 ≡ ok f
unfolding encode
decode-encode f (v, n, t, p) =
    let fits : ltb 4096 (length f.payload) ≡ false = ground arith in
    rw (fits, v)
      (decode_accepts (laid_out f.nonce f.payload f.tag) (length f.payload)
          (length-laid_out f.nonce f.payload f.tag n t) p refl
        ∙ ap ok (parsed-laid_out f.nonce f.payload f.tag n t))

laid_out-parsed :
    (input : List ℕ) (k : ℕ)
    → length input ≡ 33 + k
    → get_or input 0 0 ≡ 1
    → let f = parsed k input in laid_out f.nonce f.payload f.tag ≡ input
laid_out-parsed input k e v =
    let f = parsed k input in
    let end : drop (17 + k + 16) input ≡ [] = drop_all (17 + k + 16) input (omega (arith, e)) in
    let tag : f.tag ≡ drop (17 + k) input =
      sym (append-nil f.tag)
      ∙ ap (◌++◌ f.tag) (sym end)
      ∙ sym (drop-field (17 + k) 16 (17 + k + 16) input refl) in
    let payload : f.payload ++ f.tag ≡ drop 17 input =
      ap (◌++◌ f.payload) tag ∙ sym (drop-field 17 k (17 + k) input refl) in
    let nonce : f.nonce ++ (f.payload ++ f.tag) ≡ drop 1 input =
      ap (◌++◌ f.nonce) payload ∙ sym (drop-field 1 16 17 input refl) in
    ap (◌∷◌ 1) nonce
    ∙ ap (λ b. b ∷ drop 1 input) (sym v)
    ∙ sym (drop-cons 0 input 0 (omega (arith, e)))

parsed-IsFrame :
    (input : List ℕ) (k : ℕ)
    → length input ≡ 33 + k
    → k ≤ 4096
    → get_or input 0 0 ≡ 1
    → IsFrame (parsed k input) × (length (parsed k input).payload ≡ k)
parsed-IsFrame input k e b v =
    let n = length-field 1 16 input (omega (arith, e)) in
    let p = length-field 17 k input (omega (arith, e)) in
    let t = length-field (17 + k) 16 input (omega (arith, e)) in ((v, n, t, omega (arith, p, b)), p)

encode-parsed :
    (input : List ℕ) (k : ℕ)
    → length input ≡ 33 + k
    → k ≤ 4096
    → get_or input 0 0 ≡ 1
    → encode (parsed k input) [] ≡ (input, ok tt)
unfolding encode
encode-parsed input k e b v =
    let (_, p) = parsed-IsFrame input k e b v in
    let fits : ltb 4096 (length (parsed k input).payload) ≡ false = ground (arith, p, b) in
    rw (fits, v) (ap (λ l. (l, ok tt)) (laid_out-parsed input k e v))

-- What `decode` makes of an input: the error of the first check that fails, in the order of length,
-- version and payload, or else a well-formed frame whose encoding is the whole input.
abbrev pub Decoded : List ℕ → Type 0
Decoded input =
    (length input < 33) × (decode input ≡ err (too_short 33 (length input)))
    ⊎ (33 ≤ length input)
      × (get_or input 0 0 ≢ 1)
      × (decode input ≡ err (bad_version (get_or input 0 0)))
    ⊎ (4129 < length input) × (get_or input 0 0 ≡ 1) × (decode input ≡ err bad_length)
    ⊎ (33 ≤ length input)
      × (length input ≤ 4129)
      × (get_or input 0 0 ≡ 1)
      × ((f : Frame) × (decode input ≡ ok f) × IsFrame f × (encode f [] ≡ (input, ok tt)))

-- Every input of the right length and version is decoded to a well-formed frame whose encoding is
-- that input, and any other is refused with the error of the first check that it fails.
pub decode-Decoded : (input : List ℕ) → Decoded input
unfolding decode
decode-Decoded input = elim (Bool-cases (ltb (length input) 33)) [
  | inl short ↦ inl (ground arith, refused_short short)
  | inr long ↦ elim (Bool-cases (get_or input 0 0 == 1)) [
    | inr other ↦ inr (inl (ground arith, ground arith, refused_version long other))
    | inl v1 ↦ elim (Bool-cases (ltb 4096 (length input - 33))) [
      | inl big ↦ inr (inr (inl (ground arith, ground arith, refused_length long v1 big)))
      | inr fits ↦ inr (inr (inr (accepted long v1 fits)))
    ]
  ]
]
  where
    refused_short : ltb (length input) 33 ≡ true → decode input ≡ err (too_short 33 (length input))
    refused_short s = rw s refl

    refused_version :
        ltb (length input) 33 ≡ false
        → (get_or input 0 0 == 1) ≡ false
        → decode input ≡ err (bad_version (get_or input 0 0))
    refused_version l o = rw (l, o) refl

    refused_length :
        ltb (length input) 33 ≡ false
        → (get_or input 0 0 == 1) ≡ true
        → ltb 4096 (length input - 33) ≡ true
        → decode input ≡ err bad_length
    refused_length l v b = rw (l, v, b) refl

    accepted :
        ltb (length input) 33 ≡ false
        → (get_or input 0 0 == 1) ≡ true
        → ltb 4096 (length input - 33) ≡ false
        → (33 ≤ length input)
          × (length input ≤ 4129)
          × (get_or input 0 0 ≡ 1)
          × ((f : Frame) × (decode input ≡ ok f) × IsFrame f × (encode f [] ≡ (input, ok tt)))
    accepted l v b =
        let k : ℕ = length input - 33 in
        let e : length input ≡ 33 + k = ground arith in
        let v' : get_or input 0 0 ≡ 1 = ground arith in
        let b' : k ≤ 4096 = ground arith in
        (
          ground arith,
          ground arith,
          v',
          (
            parsed k input,
            decode_accepts input k e b' v',
            (parsed-IsFrame input k e b' v').0,
            encode-parsed input k e b' v',
          ),
        )

-- What is signed and tagged is what is sent without the tag: `encode` appends the body and the tag,
-- or, for a payload that is too long, fails as `body_bytes` does and leaves the buffer.
encode-body_bytes :
    (f : Frame) (buf : List ℕ)
    → ((body : List ℕ) × (body_bytes f ≡ ok body)
        × (encode f buf ≡ (buf ++ (body ++ f.tag), ok tt)))
      ⊎ (4096 < length f.payload)
        × (body_bytes f ≡ err bad_length)
        × (encode f buf ≡ (buf, err bad_length))
unfolding encode body_bytes
encode-body_bytes f buf = elim (Bool-cases (ltb 4096 (length f.payload))) [
  | inl big ↦ inr (ground arith, rw big refl, rw big refl)
  | inr fits ↦ inl (
    f.version ∷ f.nonce ++ f.payload,
    rw fits refl,
    rw fits
        (ap (λ l. (buf ++ (f.version ∷ l), ok tt)) (sym (append_assoc f.nonce f.payload f.tag))),
  )
]
