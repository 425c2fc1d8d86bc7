-- ===== src/Examples/RevokeRuns.antt =====
-- The revocation by the operator on concrete inputs.
use desk_unlock.Prelude.{◌≡◌, [], true}
use desk_unlock.Bonds.Recovery.{Files}
use desk_unlock.Revoke.{run_revoke}
use desk_unlock.Revoke.Effect.{IsRevoked, run_revoke-effect}
use desk_unlock.Examples.RecoveryRuns.{mine, theirs, other_id, paired, id_of}

abbrev files : Files
files = record { directory = paired; faults = [] }

run_revoke-effect_example :
    IsRevoked mine theirs files (run_revoke id_of mine "lost" true files)
    × ((run_revoke id_of mine "lost" true files).1.directory.active_key ≡ paired.active_key)
run_revoke-effect_example = run_revoke-effect id_of mine theirs "lost" files other_id
