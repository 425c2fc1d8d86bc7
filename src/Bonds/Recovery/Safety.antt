-- ===== src/Bonds/Recovery/Safety.antt =====
-- Which of the files of crates/syauth-core/src/pair_recovery.rs an operation touches, whatever fails.
use desk_unlock.Prelude.{
  ◌≡◌, refl, ◌∙◌, arith, none, ℕ, List, [], ◌∷◌, String, inl, inr, Option, Result-cases,
}
use desk_unlock.Bonds.Store.{Bond, Disk, load, find, add}
use desk_unlock.Bonds.Recovery.{
  Directory, Files, try_call, set_key, stage, discard, discard_all, remove_pending_keys,
  write_journal,
}

-- The active bonds and keys of a directory.
abbrev pub trust : Directory → Disk × (String → Option (List ℕ))
trust d = (d.active_bonds, d.active_key)

unstaged_key-trust :
    (id : String) (s : Files)
    → trust (try_call (λ d. record d { pending_key = set_key d.pending_key id none }) s).1.directory
      ≡ trust s.directory
unstaged_key-trust id s = ground arith

remove_pending_keys-trust :
    (bs : List Bond) (s : Files) → trust (remove_pending_keys bs s).1.directory ≡ trust s.directory
unfolding remove_pending_keys
remove_pending_keys-trust [] s = refl
remove_pending_keys-trust (b ∷ bs) s =
    remove_pending_keys-trust bs
      (try_call (λ d. record d { pending_key = set_key d.pending_key b.peer_id none }) s).1
    ∙ unstaged_key-trust b.peer_id s

pub discard-trust : (id : String) (s : Files) → trust (discard id s).1.directory ≡ trust s.directory
unfolding discard
discard-trust id s = ground arith

discard_all-trust :
    (peer_id_of : List ℕ → String) (s : Files)
    → trust (discard_all peer_id_of s).1.directory ≡ trust s.directory
unfolding discard_all
discard_all-trust peer_id_of s = elim (Result-cases (load peer_id_of s.directory.pending_bonds)) [
  | inl (store, e) ↦ ground (arith, remove_pending_keys-trust store.bonds s)
  | inr (x, e) ↦ ground arith
]

pub stage-trust :
    (t : List ℕ) (id address : String) (b : Bond) (key : List ℕ) (s : Files)
    → trust (stage t id address b key s).1.directory ≡ trust s.directory
unfolding stage write_journal add find
stage-trust t id address b key s = ground arith

-- Neither staging nor discarding touches the active bonds or keys, whichever calls of the file
-- system fail.
staging_keeps_trust :
    (peer_id_of : List ℕ → String) (t : List ℕ) (id address : String) (b : Bond) (key : List ℕ)
    (s : Files)
    → (trust (stage t id address b key s).1.directory ≡ trust s.directory)
      × (trust (discard id s).1.directory ≡ trust s.directory)
      × (trust (discard_all peer_id_of s).1.directory ≡ trust s.directory)
staging_keeps_trust peer_id_of t id address b key s =
    (stage-trust t id address b key s, discard-trust id s, discard_all-trust peer_id_of s)
