-- ===== src/Examples/UnlockRuns.antt =====
-- Frames, bonds, challenges and unlocks on concrete inputs.
use desk_unlock.Prelude.{
  ◌≡◌, ◌≢◌, ◌⊎◌, refl, ℕ, true, List, [], ◌∷◌, ◌++◌, String, some, none, ok, arith, eq→str_eq,
  replicate, All,
}
use desk_unlock.Auth.Frame.{Frame, encode, decode, body_bytes}
use desk_unlock.Auth.Frame.RoundTrip.{Decoded, decode-Decoded}
use desk_unlock.Auth.Crypto.{compute_tag}
use desk_unlock.Bonds.Store.{Bond, BondStatus, BondStore, is_revoked, find, mark_revoked}
use desk_unlock.Bonds.Laws.{IsDistinct}
use desk_unlock.Phone.Challenge.{build_response_frame}
use desk_unlock.Presence.NonceCache.{contains}
use desk_unlock.Presence.Outcome.{ChallengeOutcome}
use desk_unlock.Presence.Peers.{PeerEntry, new_entry, get}
use desk_unlock.Presence.Challenge.{Attempt, Daemon, issue_challenge}
use desk_unlock.Presence.Challenge.Security.{Established, issue_challenge-accepted, signed_body}
use desk_unlock.Presence.Challenge.Replay.{issue_all, nonce_is_single_use}
use desk_unlock.Presence.Challenge.Phone.{with_phone, issue_challenge-phone}
use desk_unlock.Presence.Reload.{Circumstances, compute_new_set, reload_bonds}
use desk_unlock.Presence.Reload.Laws.{reloaded, get-reload_bonds}
use desk_unlock.Presence.Reload.Revocation.{revoked_peer_gone}
use desk_unlock.Pam.Auth.{first_bonded, resolve_peer_id, pam_success}
use desk_unlock.Pam.Choice.{IsNewest, first_bonded-IsNewest}
use desk_unlock.Pam.Unlock.{unlock, unlock_needs_signature, unlock-phone, Recorded}
use desk_unlock.Examples.Toy.{toy, toy-IsCrypto}

abbrev seed : List ℕ
seed = replicate 32 5

abbrev key : List ℕ
key = replicate 32 9

abbrev nonce : List ℕ
nonce = replicate 16 3

abbrev bond : Bond
bond = record {
  peer_id = "a1";
  pubkey = seed;
  name = "phone";
  created_at = 4;
  status = BondStatus.bonded;
}

abbrev old_bond : Bond
old_bond = record {
  peer_id = "b2";
  pubkey = key;
  name = "old";
  created_at = 2;
  status = BondStatus.bonded;
}

abbrev two_bonds : BondStore
two_bonds = record { bonds = old_bond ∷ bond ∷ [] }

abbrev entry : PeerEntry
entry = new_entry key (some seed)

abbrev daemon : Daemon
daemon = record { peers = ("a1", entry) ∷ []; audit = [] }

abbrev attempt : Attempt
attempt = with_phone toy key seed 100 nonce

frame : Frame
frame = record { version = 1; nonce = nonce; payload = 8 ∷ 9 ∷ []; tag = replicate 16 0 }

decode-Decoded_example : Decoded (replicate 40 1)
decode-Decoded_example = decode-Decoded (replicate 40 1)

two_bonds-IsDistinct : IsDistinct two_bonds.bonds
unfolding find
two_bonds-IsDistinct = (refl, (refl, tt))

abbrev lost : String
lost = "a1"

abbrev kept : String
kept = "b2"

other_id : kept ≢ lost
other_id e = ground (arith, eq→str_eq kept lost e)

entry_found : get daemon.peers lost ≡ some entry
unfolding get
entry_found = refl

accepted :
    (issue_challenge toy attempt daemon lost).1
    ≡ ChallengeOutcome.accepted (toy.sign seed (signed_body nonce))
unfolding contains
accepted =
    issue_challenge-phone toy toy-IsCrypto daemon lost entry nonce seed 100 entry_found refl refl
      refl refl refl

issue_challenge-accepted_example :
    Established toy attempt daemon lost (toy.sign seed (signed_body nonce))
issue_challenge-accepted_example = issue_challenge-accepted toy attempt daemon lost accepted

nonce_is_single_use_example :
    (issue_challenge toy attempt
      (issue_all toy ((kept, attempt) ∷ []) (issue_challenge toy attempt daemon lost).0)
      lost).1
    ≢ ChallengeOutcome.accepted (toy.sign seed (signed_body nonce))
nonce_is_single_use_example =
    nonce_is_single_use toy attempt attempt daemon lost entry nonce ((kept, attempt) ∷ [])
      {sig = toy.sign seed (signed_body nonce)} {sig' = toy.sign seed (signed_body nonce)}
      entry_found (omega arith) refl refl (omega arith) accepted

-- A response frame around a signature, and a link that brings it.
abbrev response_bytes : List ℕ
response_bytes = 1 ∷ nonce ++ (replicate 64 2 ++ (replicate 16 9))

built :
    build_response_frame toy key (λ _. replicate 64 2) nonce (1 ∷ replicate 32 0)
    ≡ ok response_bytes
unfolding build_response_frame decode encode body_bytes compute_tag
built = refl

abbrev calm : Circumstances
calm = record { removes = λ _. true; adds = λ _. true; key_file = λ _. some (replicate 32 1) }

get-reload_bonds_example :
    get (reload_bonds calm two_bonds daemon.peers) kept
    ≡ reloaded calm two_bonds kept
        (get (compute_new_set calm two_bonds) kept)
        (get daemon.peers kept)
get-reload_bonds_example = get-reload_bonds calm two_bonds daemon.peers kept

revoked_peer_gone_example :
    get (reload_bonds calm (mark_revoked two_bonds lost "stolen").0 daemon.peers) lost ≡ none
revoked_peer_gone_example =
    revoked_peer_gone calm two_bonds daemon.peers lost "stolen" two_bonds-IsDistinct refl

first_bonded-IsNewest_example :
    (first_bonded two_bonds ≡ none) × All (λ x. is_revoked x ≡ true) two_bonds.bonds
    ⊎ ((b : Bond) × (first_bonded two_bonds ≡ some b) × IsNewest two_bonds.bonds b)
first_bonded-IsNewest_example = first_bonded-IsNewest two_bonds

chosen : resolve_peer_id (ok two_bonds) ≡ ok lost
unfolding resolve_peer_id first_bonded
chosen = refl

unlock-phone_example : unlock toy attempt daemon (ok two_bonds) true ≡ pam_success
unfolding contains
unlock-phone_example =
    unlock-phone toy toy-IsCrypto daemon (ok two_bonds) lost entry nonce seed 100 chosen entry_found
      refl refl refl refl refl

unlock_needs_signature_example :
    (id : String) × (sig : List ℕ) × (resolve_peer_id (ok two_bonds) ≡ ok id)
    × Established toy attempt daemon id sig
    × Recorded toy attempt daemon id
unlock_needs_signature_example =
    unlock_needs_signature toy attempt daemon (ok two_bonds) true unlock-phone_example
