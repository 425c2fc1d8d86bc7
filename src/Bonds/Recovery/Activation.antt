-- ===== src/Bonds/Recovery/Activation.antt =====
-- What `stage` and `promote` of crates/syauth-core/src/pair_recovery.rs achieve when nothing fails.
use desk_unlock.Prelude.{
  utf8, ◌≡◌, ◌≢◌, refl, ap, sym, arith, some, none, ok, ℕ, List, [], ◌∷◌, ◌++◌, String, str_eq,
  length, inl, inr, Option-cases, str_eq_refl, str_neq,
}
use desk_unlock.Bonds.Store.{Bond, BondStore, Disk, load, find, add, remove, without, check_ids}
use desk_unlock.Bonds.Journal.{JournalState, JournalRecord, journal_text}
use desk_unlock.Bonds.Laws.{IsDistinct, find-append, find-without_same}
use desk_unlock.Bonds.Recovery.{
  Directory, Files, Journal, stage, discard, promote, install_key, copy_key, activate, replaced,
  write_journal, set_key, saved, bond_key_bytes,
}
use desk_unlock.Bonds.Recovery.Backing.{bonds_of, find-replaced}

pub replaced_ok :
    (s : BondStore) (b : Bond)
    → IsDistinct s.bonds
    → (s' : BondStore) × (replaced s b ≡ ok s') × (find s'.bonds b.peer_id ≡ some b)
unfolding replaced remove add
replaced_ok s b d = elim (Option-cases (find s.bonds b.peer_id)) [
  | inl e ↦ (
    record { bonds = s.bonds ++ b ∷ [] },
    rw (e, replaced) (rw (e, add) refl),
    ground (arith, find-append s.bonds b b.peer_id, str_eq_refl b.peer_id),
  )
  | inr (x, e) ↦ (
    record { bonds = without s.bonds b.peer_id ++ b ∷ [] },
    ground (arith, find-without_same s.bonds b.peer_id d),
    ground (
      arith,
      find-append (without s.bonds b.peer_id) b b.peer_id,
      find-without_same s.bonds b.peer_id d,
      str_eq_refl b.peer_id,
    ),
  )
]

abbrev pub unfailing : Directory → Files
unfailing d = record { directory = d; faults = [] }

-- The directory after a staging and a promotion.
abbrev pub with_peer : Directory → Bond → List ℕ → BondStore → Directory
with_peer d b key store = record {
  active_bonds = saved store;
  active_key = set_key d.active_key b.peer_id (some key);
  pending_bonds = Disk.missing;
  pending_key = set_key (set_key d.pending_key b.peer_id (some key)) b.peer_id none;
  journal = Journal.absent;
}

-- The store that `stage` saves.
abbrev pub alone : Bond → BondStore
alone b = record { bonds = b ∷ [] }

pub alone_loads :
    (peer_id_of : List ℕ → String) (b : Bond)
    → peer_id_of b.pubkey ≡ b.peer_id
    → load peer_id_of (saved (alone b)) ≡ ok (alone b)
unfolding load check_ids
alone_loads peer_id_of b own = ground (arith, own, str_eq_refl b.peer_id, ap (str_eq b.peer_id) own)

find-alone : (b : Bond) → find (b ∷ []) b.peer_id ≡ some b
unfolding find
find-alone b = ground (arith, str_eq_refl b.peer_id)

-- The journal of a peer, in one of its states.
abbrev pub journal_of : List ℕ → String → String → JournalState → JournalRecord
journal_of t id address state = record {
  transaction = t;
  peer_id = utf8 id;
  peer_address = utf8 address;
  state = state;
}

abbrev pub staged_in : Directory → JournalRecord → Bond → List ℕ → Directory
staged_in d j b key = record d {
  pending_bonds = saved (alone b);
  pending_key = set_key d.pending_key b.peer_id (some key);
  journal = Journal.content (journal_text j);
}

pub stage_runs :
    (t : List ℕ) (address : String) (b : Bond) (key : List ℕ) (d : Directory)
    → stage t b.peer_id address b key (unfailing d) ≡ (
      ok tt,
      unfailing (staged_in d (journal_of t b.peer_id address JournalState.pre_commit) b key),
    )
unfolding stage write_journal add find
stage_runs t address b key d = refl

install_key_runs :
    (id : String) (key : List ℕ) (d : Directory)
    → d.pending_key id ≡ some key
    → length key ≡ bond_key_bytes
    → install_key id (unfailing d)
      ≡ (ok tt, unfailing (record d { active_key = set_key d.active_key id (some key) }))
unfolding install_key copy_key
install_key_runs id key d p n = rw (p, install_key) (rw (n, copy_key) refl)

activate_runs :
    (peer_id_of : List ℕ → String) (b : Bond) (d : Directory) {active store : BondStore}
    → load peer_id_of d.active_bonds ≡ ok active
    → replaced active b ≡ ok store
    → activate peer_id_of b (unfailing d)
      ≡ (ok tt, unfailing (record d { active_bonds = saved store }))
unfolding activate
activate_runs peer_id_of b d l r = rw (l, r, activate) refl

pub promote_runs :
    (peer_id_of : List ℕ → String) (j : JournalRecord) (b : Bond) (key : List ℕ) (d : Directory)
    {active store : BondStore}
    → load peer_id_of d.active_bonds ≡ ok active
    → replaced active b ≡ ok store
    → peer_id_of b.pubkey ≡ b.peer_id
    → length key ≡ bond_key_bytes
    → promote peer_id_of b.peer_id (unfailing (staged_in d j b key))
      ≡ (ok tt, unfailing (with_peer d b key store))
unfolding promote discard
promote_runs peer_id_of j b key d l r own n =
    let here : set_key d.pending_key b.peer_id (some key) b.peer_id ≡ some key =
      rw (str_eq_refl b.peer_id) refl in
    let staged = staged_in d j b key in
    let keyed : Directory = record staged {
      active_key = set_key d.active_key b.peer_id (some key);
    } in
    rw (alone_loads peer_id_of b own, find-alone b, promote)
      (rw (install_key_runs b.peer_id key staged here n)
        (rw (activate_runs peer_id_of b keyed l r) refl))

-- Staging a bond and its 32-byte key and promoting it, when no call fails and the active store loads
-- with one bond for each peer, makes them the peer's active bond and key, in place of those it had,
-- leaves the other peers theirs, and clears what was staged.
promote-stage :
    (peer_id_of : List ℕ → String) (t : List ℕ) (address : String) (b : Bond) (key : List ℕ)
    (d : Directory) (active : BondStore) (j : String)
    → load peer_id_of d.active_bonds ≡ ok active
    → IsDistinct active.bonds
    → peer_id_of b.pubkey ≡ b.peer_id
    → length key ≡ 32
    → j ≢ b.peer_id
    → let (staged, s) = stage t b.peer_id address b key (record { directory = d; faults = [] }) in
      let (promoted, after) = promote peer_id_of b.peer_id s in
      let new = after.directory in
      (staged ≡ ok tt)
      × (promoted ≡ ok tt)
      × (find (bonds_of new.active_bonds) b.peer_id ≡ some b)
      × (new.active_key b.peer_id ≡ some key)
      × (find (bonds_of new.active_bonds) j ≡ find active.bonds j)
      × (new.active_key j ≡ d.active_key j)
      × (new.pending_bonds ≡ Disk.missing)
      × (new.pending_key b.peer_id ≡ none)
      × (new.journal ≡ Journal.absent)
promote-stage peer_id_of t address b key d active j l distinct own n other =
    let (store, r, mine) = replaced_ok active b distinct in
    let differs = str_neq b.peer_id j (λ e. other (sym e)) in
    rw
      (
        stage_runs t address b key d,
        promote_runs peer_id_of (journal_of t b.peer_id address JournalState.pre_commit) b key d
            {active = active} {store = store} l r own n,
      )
      (
        refl,
        refl,
        mine,
        rw (str_eq_refl b.peer_id) refl,
        find-replaced active b j r other,
        rw differs refl,
        refl,
        rw (str_eq_refl b.peer_id) refl,
        refl,
      )
