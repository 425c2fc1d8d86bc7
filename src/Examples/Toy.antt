-- ===== src/Examples/Toy.antt =====
-- Primitives that behave as documented, for the examples: a hash and a signature are the key and the
-- message cut to their length.
use desk_unlock.Prelude.{
  ◌≡◌, refl, true, arith, ℕ, List, ◌++◌, length, take, replicate, bytes_eq, bytes_eq_refl,
  length-take, length-append, length-replicate,
}
use desk_unlock.Auth.Crypto.{Crypto, IsCrypto}

abbrev cut : ℕ → List ℕ → List ℕ → List ℕ
cut n key message = take n (key ++ (message ++ replicate n 0))

length-cut : (n : ℕ) (key message : List ℕ) → length (cut n key message) ≡ n
length-cut n key message = omega (
  arith,
  length-take n (key ++ (message ++ replicate n 0)),
  length-append key (message ++ replicate n 0),
  length-append message (replicate n 0),
  length-replicate {A = ℕ} n 0,
)

abbrev pub toy : Crypto
toy = record {
  keyed_hash = cut 32;
  sign = cut 64;
  public_key = λ seed. seed;
  is_key = λ _. true;
  is_signature = λ _. true;
  verify_strict = λ key message sig. bytes_eq (cut 64 key message) sig;
}

pub toy-IsCrypto : IsCrypto toy
toy-IsCrypto = record {
  length-keyed_hash = length-cut 32;
  length-sign = length-cut 64;
  sign-is_signature = λ _ _. refl;
  public_key-is_key = λ _. refl;
  verify_strict-sign = λ seed message. bytes_eq_refl (cut 64 seed message);
}
