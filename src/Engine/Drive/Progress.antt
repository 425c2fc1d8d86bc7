-- ===== src/Engine/Drive/Progress.antt =====
-- The coordinator's transaction after each round of an attempt, and the messages that move it on.
use desk_unlock.Prelude.{◌≡◌, true, ok, ℕ, List, bytes_eq_refl}
use desk_unlock.Pairing.Types.{Operation, Phase, coordinator, both, neither}
use desk_unlock.Pairing.State.{Transaction, new}
use desk_unlock.Pairing.Transaction.{remote}
use desk_unlock.Engine.Actions.{message}

-- The transaction after each round.
abbrev pub negotiated : List ℕ → Transaction
negotiated id = record (new id coordinator) { phase = Phase.oob_pending; capabilities = both }

abbrev pub heard : List ℕ → Transaction
heard id = record (new id coordinator) { capabilities = record neither { peer = true } }

abbrev pub offered : List ℕ → Transaction
offered id = record (new id coordinator) { capabilities = both }

abbrev pub agreed : List ℕ → Transaction
agreed id = record (negotiated id) { confirmed = record neither { mine = true } }

abbrev pub confirmed : List ℕ → Transaction
confirmed id = record (negotiated id) { phase = Phase.preparing; confirmed = both }

abbrev pub staged : List ℕ → Transaction
staged id = record (confirmed id) { prepared = record neither { mine = true } }

abbrev pub prepared : List ℕ → Transaction
prepared id = record (confirmed id) { phase = Phase.prepared; prepared = both }

abbrev pub pending : List ℕ → Transaction
pending id = record (prepared id) { phase = Phase.commit_pending }

abbrev pub committed : List ℕ → Transaction
committed id = record (prepared id) { phase = Phase.committed }

abbrev pub recorded : List ℕ → Transaction
recorded id = record (committed id) { committed = record neither { peer = true } }

abbrev pub bonded : List ℕ → Transaction
bonded id = record (prepared id) { phase = Phase.bonded; committed = both }

-- The peer's answers move the transaction on.
pub hears_capability :
    (id : List ℕ)
    → remote (new id coordinator) (message (new id coordinator) Operation.capability)
      ≡ (heard id, ok tt)
unfolding remote message new
hears_capability id = rw (bytes_eq_refl id)

pub hears_confirm :
    (id : List ℕ)
    → remote (agreed id) (message (agreed id) Operation.confirm) ≡ (confirmed id, ok tt)
unfolding remote message new
hears_confirm id = rw (bytes_eq_refl id)

pub hears_prepared :
    (id : List ℕ)
    → remote (staged id) (message (staged id) Operation.prepared) ≡ (prepared id, ok tt)
unfolding remote message new
hears_prepared id = rw (bytes_eq_refl id)

pub hears_commit_ack :
    (id : List ℕ)
    → remote (pending id) (message (pending id) Operation.commit_ack) ≡ (committed id, ok tt)
unfolding remote message new
hears_commit_ack id = rw (bytes_eq_refl id)

pub hears_committed :
    (id : List ℕ)
    → remote (committed id) (message (committed id) Operation.committed) ≡ (recorded id, ok tt)
unfolding remote message new
hears_committed id = rw (bytes_eq_refl id)
