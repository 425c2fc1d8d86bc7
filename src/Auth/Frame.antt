-- ===== src/Auth/Frame.antt =====
-- `Frame` and `FrameError` of crates/syauth-core/src/frame.rs. A byte array `[u8; n]` is a list of
-- length n.
pub mod RoundTrip
use desk_unlock.Prelude.{
  ℕ, ◌+◌, ◌-◌, Bool, not, List, [], ◌∷◌, ◌++◌, ltb, ◌==◌, if◌then◌else◌, Result, ok, err, ◌>>=◌,
  ◌>>◌, refuse_if, length, take, drop, get_or,
}

abbrev pub version_v1 : ℕ
version_v1 = 1

abbrev nonce_len : ℕ
nonce_len = 16

abbrev pub tag_len : ℕ
tag_len = 16

-- Where the payload begins, behind the version and the nonce.
abbrev header_len : ℕ
header_len = 1 + nonce_len

abbrev min_frame_len : ℕ
min_frame_len = header_len + tag_len

abbrev max_payload_len : ℕ
max_payload_len = 4096

pub record Frame : Type 0 where
  pub version : ℕ
  pub nonce : List ℕ
  pub payload : List ℕ
  pub tag : List ℕ

pub data FrameError : Type 0 where
  too_short : ℕ → ℕ → FrameError
  bad_version : ℕ → FrameError
  bad_length : FrameError

-- The buffer that `encode` leaves, and its result.
unfoldable pub encode : Frame → List ℕ → List ℕ × Result FrameError (Unit {0})
encode f buf =
    if ltb max_payload_len (length f.payload)
    then (buf, err bad_length)
    else (buf ++ (f.version ∷ (f.nonce ++ (f.payload ++ f.tag))), ok tt)

unfoldable pub body_bytes : Frame → Result FrameError (List ℕ)
body_bytes f =
    if ltb max_payload_len (length f.payload)
    then err bad_length
    else ok (f.version ∷ f.nonce ++ f.payload)

unfoldable pub decode : List ℕ → Result FrameError Frame
decode input = do
  refuse_if (ltb (length input) min_frame_len) (too_short min_frame_len (length input))
  refuse_if (not (get_or input 0 0 == version_v1)) (bad_version (get_or input 0 0))
  refuse_if (ltb max_payload_len (length input - min_frame_len)) bad_length
  ok (record {
    version = get_or input 0 0;
    nonce = take nonce_len (drop 1 input);
    payload = take (length input - min_frame_len) (drop header_len input);
    tag = take tag_len (drop (header_len + (length input - min_frame_len)) input);
  })
