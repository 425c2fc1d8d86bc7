-- ===== src/Pam/Config/Sockets.antt =====
-- That the PAM module of crates/syauth-pam/src/config.rs asks the daemon of the account, and no other.
use mathlib.Core.List.{append_assoc}
use desk_unlock.Prelude.{
  ℕ, zero, suc, ◌+◌, ◌*◌, ◌-◌, ◌/◌, ◌%◌, ◌≤◌, ◌<◌, ◌≡◌, refl, ap, sym, ◌∙◌, arith, true, Option,
  none, some, List, [], ◌∷◌, ◌++◌, ◌==◌, ltb, Bool-cases, inl, inr, if◌then◌else◌, All, drop, ◌^◌,
  ◌≢◌, ◌⊎◌,
}
use desk_unlock.Pam.Config.{
  slash, needs_separator, decimal_from, decimal, user_dir, socket_below, socket_override,
  resolve_runtime_dir, from_pam_argv_for_uid, daemon_socket, runtime_subdir,
  default_socket_basename, join, default_runtime_fallback_prefix,
}

abbrev power : ℕ → ℕ
power zero = 1
power (suc k) = 10 * power k

-- The number that a text begins with, up to a slash.
abbrev read : ℕ → List ℕ → ℕ
read n [] = n
read n (c ∷ cs) = if c == slash then n else read (10 * n + (c - b'0')) cs

read_digit : (n d : ℕ) (cs : List ℕ) → read n ((b'0' + d) ∷ cs) ≡ read (10 * n + d) cs
read_digit n d cs = ground arith

read-decimal_from :
    (fuel n : ℕ) (later rest : List ℕ)
    → n < power fuel
    → read 0 (decimal_from fuel n later ++ rest) ≡ read n (later ++ rest)
unfolding decimal_from
read-decimal_from zero n later rest h = ap (λ k. read k (later ++ rest)) (omega arith)
read-decimal_from (suc fuel) n later rest h =
    let digits : List ℕ = (b'0' + n % 10) ∷ later in
    elim (Bool-cases (ltb n 10)) [
      | inl small ↦
          rw small (
            read_digit 0 (n % 10) (later ++ rest) ∙ ap (λ k. read k (later ++ rest)) (ground arith))
      | inr large ↦ rw large (
          read-decimal_from fuel (n / 10) digits rest (omega arith)
          ∙ read_digit (n / 10) (n % 10) (later ++ rest)
          ∙ ap (λ k. read k (later ++ rest)) (omega arith))
    ]

needs_separator-digits :
    (c : ℕ) (cs : List ℕ) → All (λ d. b'0' ≤ d) (c ∷ cs) → needs_separator (c ∷ cs) ≡ true
unfolding needs_separator
needs_separator-digits c [] h = ground arith
needs_separator-digits c (d ∷ cs) (h, hs) = needs_separator-digits d cs hs

-- The digits of a number, seen as a first one and the others.
digits_of :
    (fuel n : ℕ) (c : ℕ) (cs : List ℕ)
    → All (λ d. b'0' ≤ d) (c ∷ cs)
    → (c' : ℕ) × (cs' : List ℕ) × (decimal_from fuel n (c ∷ cs) ≡ c' ∷ cs')
      × All (λ d. b'0' ≤ d) (c' ∷ cs')
unfolding decimal_from
digits_of zero n c cs h = (c, cs, refl, h)
digits_of (suc fuel) n c cs h = elim (Bool-cases (ltb n 10)) [
  | inl small ↦ rw small (b'0' + n % 10, c ∷ cs, refl, (omega arith, h))
  | inr large ↦ rw large (digits_of fuel (n / 10) (b'0' + n % 10) (c ∷ cs) (omega arith, h))
]

needs_separator-append :
    (xs : List ℕ) (c : ℕ) (cs : List ℕ) → needs_separator (xs ++ c ∷ cs) ≡ needs_separator (c ∷ cs)
unfolding needs_separator
needs_separator-append [] c cs = refl
needs_separator-append (x ∷ []) c cs = refl
needs_separator-append (x ∷ y ∷ xs) c cs = needs_separator-append (y ∷ xs) c cs

-- What stands after the digits of a user in the path of the socket.
abbrev socket_tail : List ℕ
socket_tail = (slash ∷ runtime_subdir) ++ slash ∷ default_socket_basename

join-separated :
    (dir name : List ℕ) → needs_separator dir ≡ true → join dir name ≡ dir ++ slash ∷ name
join-separated dir name h = rw h refl

socket_below-separated :
    (dir : List ℕ) → needs_separator dir ≡ true → socket_below dir ≡ dir ++ socket_tail
unfolding needs_separator
socket_below-separated dir h = rw (join-separated dir runtime_subdir h) (
    join-separated (dir ++ slash ∷ runtime_subdir) default_socket_basename
      (needs_separator-append dir slash runtime_subdir)
    ∙ append_assoc dir (slash ∷ runtime_subdir) (slash ∷ default_socket_basename))

digits_start :
    (fuel n : ℕ)
    → (c : ℕ) × (cs : List ℕ) × (decimal_from (suc fuel) n [] ≡ c ∷ cs)
      × All (λ d. b'0' ≤ d) (c ∷ cs)
unfolding decimal_from
digits_start fuel n =
    let (c, cs, e, h) = digits_of fuel (n / 10) (b'0' + n % 10) [] (omega arith, tt) in
    elim (Bool-cases (ltb n 10)) [
      | inl small ↦ rw small (b'0' + n % 10, [], refl, (omega arith, tt))
      | inr large ↦ rw large (c, cs, e, h)
    ]

needs_separator-decimal : (uid : ℕ) → needs_separator (user_dir uid) ≡ true
needs_separator-decimal uid =
    let (c, cs, e, h) = digits_start 9 uid in
    ap (λ ds. needs_separator (default_runtime_fallback_prefix ++ ds)) e
    ∙ needs_separator-append default_runtime_fallback_prefix c cs
    ∙ needs_separator-digits c cs h

socket_below-user :
    (uid : ℕ)
    → socket_below (user_dir uid) ≡ default_runtime_fallback_prefix ++ (decimal uid ++ socket_tail)
socket_below-user uid =
    socket_below-separated (user_dir uid) (needs_separator-decimal uid)
    ∙ append_assoc default_runtime_fallback_prefix (decimal uid) socket_tail

uid_of_socket : (uid : ℕ) → uid < power 10 → read 0 (drop 10 (socket_below (user_dir uid))) ≡ uid
uid_of_socket uid h =
    ap (λ s. read 0 (drop 10 s)) (socket_below-user uid) ∙ read-decimal_from 10 uid [] socket_tail h

daemon_socket-user :
    (runtime : Option (List ℕ)) (uid : ℕ)
    → (runtime ≡ none) ⊎ (runtime ≡ some []) ⊎ (runtime ≡ some (user_dir uid))
    → daemon_socket runtime uid none ≡ socket_below (user_dir uid)
unfolding daemon_socket resolve_runtime_dir
daemon_socket-user runtime uid (inl e) = rw e refl
daemon_socket-user runtime uid (inr (inl e)) = rw e refl
daemon_socket-user runtime uid (inr (inr e)) = rw e refl

-- Without a module argument for the socket, the PAM module asks at a socket that it does not ask at for
-- any other account, and that is the one of the daemon of the account, if that has no argument for it
-- either and its `XDG_RUNTIME_DIR` is unset, empty or the account's directory under /run/user.
pub socket_of_account :
    (argv : List (List ℕ)) (uid other : ℕ) (runtime : Option (List ℕ))
    → socket_override argv ≡ none
    → uid < 2 ^ 32
    → other < 2 ^ 32
    → other ≢ uid
    → (runtime ≡ none) ⊎ (runtime ≡ some []) ⊎ (runtime ≡ some (user_dir uid))
    → ((from_pam_argv_for_uid argv other).socket_path
        ≢ (from_pam_argv_for_uid argv uid).socket_path)
      × (daemon_socket runtime uid none ≡ (from_pam_argv_for_uid argv uid).socket_path)
unfolding from_pam_argv_for_uid
socket_of_account argv uid other runtime free small small' differ dir = rw free (
  λ e. differ (
      sym (uid_of_socket other (omega arith))
      ∙ ap (λ s. read 0 (drop 10 s)) e
      ∙ uid_of_socket uid (omega arith)),
  daemon_socket-user runtime uid dir,
)
