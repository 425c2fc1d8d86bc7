-- ===== src/Examples.antt =====
-- Runs of the model on concrete inputs, and the theorems at inputs that meet their hypotheses.
mod PairingRuns
mod EngineRuns
mod Toy
mod UnlockRuns
mod RecoveryRuns
mod CommitRuns
mod BrokerRuns
mod LockRuns
mod RotationRuns
mod RevokeRuns
mod CodeRuns
mod ConfigRuns
