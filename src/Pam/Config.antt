-- ===== src/Pam/Config.antt =====
-- crates/syauth-pam/src/config.rs: where the PAM module looks for its files and for the daemon's socket,
-- and `resolve_runtime_dir` of crates/syauth-presenced/src/main.rs, from which the daemon takes the
-- place of that socket. Texts and paths are lists of bytes; the value of `XDG_RUNTIME_DIR` is `none`
-- where it is unset or no UTF-8. The user id has 32 bits, so ten decimal digits are enough.
pub mod Sockets
use desk_unlock.Prelude.{
  ℕ, zero, suc, ◌+◌, ◌/◌, ◌%◌, Bool, true, false, Option, none, some, List, [], ◌∷◌, ◌++◌, ◌==◌,
  ltb, if◌then◌else◌,
}
use desk_unlock.Bonds.Journal.{strip_prefix}

abbrev pub slash : ℕ
slash = b'/'

-- `/var/lib/syauth`.
abbrev pub default_bond_dir : List ℕ
default_bond_dir =
    slash ∷ b'v' ∷ b'a' ∷ b'r' ∷ slash ∷ b'l' ∷ b'i' ∷ b'b' ∷ slash ∷ b's' ∷ b'y' ∷ b'a' ∷ b'u'
    ∷ b't' ∷ b'h' ∷ []

abbrev pub default_auth_timeout : ℕ
default_auth_timeout = 20000

-- `last.log`.
abbrev pub last_log_filename : List ℕ
last_log_filename = b'l' ∷ b'a' ∷ b's' ∷ b't' ∷ b'.' ∷ b'l' ∷ b'o' ∷ b'g' ∷ []

-- `bonds.toml`.
abbrev pub bonds_filename : List ℕ
bonds_filename = b'b' ∷ b'o' ∷ b'n' ∷ b'd' ∷ b's' ∷ b'.' ∷ b't' ∷ b'o' ∷ b'm' ∷ b'l' ∷ []

-- `/run/user/`.
abbrev pub default_runtime_fallback_prefix : List ℕ
default_runtime_fallback_prefix =
    slash ∷ b'r' ∷ b'u' ∷ b'n' ∷ slash ∷ b'u' ∷ b's' ∷ b'e' ∷ b'r' ∷ slash ∷ []

-- `syauth`.
abbrev pub runtime_subdir : List ℕ
runtime_subdir = b's' ∷ b'y' ∷ b'a' ∷ b'u' ∷ b't' ∷ b'h' ∷ []

-- `auth.sock`.
abbrev pub default_socket_basename : List ℕ
default_socket_basename = b'a' ∷ b'u' ∷ b't' ∷ b'h' ∷ b'.' ∷ b's' ∷ b'o' ∷ b'c' ∷ b'k' ∷ []

-- `socket=`.
abbrev pub pam_socket_arg_prefix : List ℕ
pam_socket_arg_prefix = b's' ∷ b'o' ∷ b'c' ∷ b'k' ∷ b'e' ∷ b't' ∷ b'=' ∷ []

pub record Config : Type 0 where
  pub bond_dir : List ℕ
  pub socket_path : List ℕ
  pub auth_timeout : ℕ

-- Whether `Path::join` puts a separator after a path.
unfoldable pub needs_separator : List ℕ → Bool
needs_separator [] = false
needs_separator (c ∷ []) = if c == slash then false else true
needs_separator (c ∷ d ∷ cs) = needs_separator (d ∷ cs)

-- `Path::join` with a relative path, which all that the code joins are.
abbrev pub join : List ℕ → List ℕ → List ℕ
join dir name = if needs_separator dir then dir ++ slash ∷ name else dir ++ name

-- `format!("{uid}")`, the digits put before those that are known.
unfoldable pub decimal_from : ℕ → ℕ → List ℕ → List ℕ
decimal_from zero n later = later
decimal_from (suc fuel) n later =
    let digits = (b'0' + n % 10) ∷ later in
    let longer = decimal_from fuel (n / 10) digits in if ltb n 10 then digits else longer

abbrev pub decimal : ℕ → List ℕ
decimal uid = decimal_from 10 uid []

-- `.find_map(|arg| arg.strip_prefix(PAM_SOCKET_ARG_PREFIX))`.
unfoldable pub socket_override : List (List ℕ) → Option (List ℕ)
socket_override [] = none
socket_override (arg ∷ argv) =
    let later = socket_override argv in
    elim (strip_prefix pam_socket_arg_prefix arg) [ none ↦ later | some path ↦ some path ]

abbrev pub user_dir : ℕ → List ℕ
user_dir uid = default_runtime_fallback_prefix ++ decimal uid

abbrev pub socket_below : List ℕ → List ℕ
socket_below dir = join (join dir runtime_subdir) default_socket_basename

-- `resolve_runtime_dir` of the daemon, and the same choice in `resolve_socket_path`.
unfoldable pub resolve_runtime_dir : Option (List ℕ) → ℕ → List ℕ
resolve_runtime_dir none euid = user_dir euid
resolve_runtime_dir (some []) euid = user_dir euid
resolve_runtime_dir (some (c ∷ cs)) euid = c ∷ cs

unfoldable pub resolve_socket_path : Option (List ℕ) → ℕ → Option (List ℕ) → List ℕ
resolve_socket_path runtime euid (some path) = path
resolve_socket_path runtime euid none = socket_below (resolve_runtime_dir runtime euid)

unfoldable pub from_pam_argv : Option (List ℕ) → ℕ → List (List ℕ) → Config
from_pam_argv runtime euid argv = record {
  bond_dir = default_bond_dir;
  socket_path = resolve_socket_path runtime euid (socket_override argv);
  auth_timeout = default_auth_timeout;
}

abbrev pub path_or_user_socket : Option (List ℕ) → ℕ → List ℕ
path_or_user_socket (some path) uid = path
path_or_user_socket none uid = socket_below (user_dir uid)

unfoldable pub from_pam_argv_for_uid : List (List ℕ) → ℕ → Config
from_pam_argv_for_uid argv uid = record {
  bond_dir = default_bond_dir;
  socket_path = path_or_user_socket (socket_override argv) uid;
  auth_timeout = default_auth_timeout;
}

abbrev pub last_log_path : Config → List ℕ
last_log_path c = join c.bond_dir last_log_filename

abbrev pub bonds_file_path : Config → List ℕ
bonds_file_path c = join c.bond_dir bonds_filename

abbrev pub socket_default : Option (List ℕ) → ℕ → List ℕ
socket_default runtime euid = socket_below (resolve_runtime_dir runtime euid)

-- Where `build_config` of the daemon puts the socket, the argument `--socket` given or not.
unfoldable pub daemon_socket : Option (List ℕ) → ℕ → Option (List ℕ) → List ℕ
daemon_socket runtime euid (some path) = path
daemon_socket runtime euid none = socket_default runtime euid
