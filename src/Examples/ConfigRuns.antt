-- ===== src/Examples/ConfigRuns.antt =====
-- The PAM module's configuration on concrete arguments.
use desk_unlock.Prelude.{◌≡◌, ◌≢◌, arith, refl, inr, ℕ, none, some, List, [], ◌∷◌, ◌++◌}
use desk_unlock.Bonds.Journal.{strip_prefix}
use desk_unlock.Pam.Config.{
  pam_socket_arg_prefix, decimal, decimal_from, socket_override, from_pam_argv_for_uid,
  daemon_socket, user_dir,
}
use desk_unlock.Pam.Config.Sockets.{socket_of_account}

-- `nullok`, which is for another module.
abbrev other_argument : List (List ℕ)
other_argument = (b'n' ∷ b'u' ∷ b'l' ∷ b'l' ∷ b'o' ∷ b'k' ∷ []) ∷ []

decimal_1000 : decimal 1000 ≡ b'1' ∷ b'0' ∷ b'0' ∷ b'0' ∷ []
unfolding decimal_from
decimal_1000 = refl

override_found : socket_override ((pam_socket_arg_prefix ++ b'x' ∷ []) ∷ []) ≡ some (b'x' ∷ [])
unfolding socket_override strip_prefix
override_found = refl

override_not_given : socket_override other_argument ≡ none
unfolding socket_override strip_prefix
override_not_given = refl

socket_of_account_example :
    ((from_pam_argv_for_uid other_argument 1001).socket_path
      ≢ (from_pam_argv_for_uid other_argument 1000).socket_path)
    × (daemon_socket (some (user_dir 1000)) 1000 none
        ≡ (from_pam_argv_for_uid other_argument 1000).socket_path)
socket_of_account_example =
    socket_of_account other_argument 1000 1001 (some (user_dir 1000)) override_not_given
      (omega arith) (omega arith) (omega arith) (inr (inr refl))
