-- ===== src/Peripheral/PairAgent.antt =====
-- `PairAgentSession`, `ensure_pairable_with`, `acquire_pair_agent_with` and `release_pair_agent_with`
-- of crates/syauth-transport/src/peripheral.rs. The adapter is its `Pairable` flag with what its next
-- calls do: a read may fail, and a change may not take effect. Nobody else changes the flag.
pub mod Restore
use desk_unlock.Prelude.{
  ℕ, zero, suc, Bool, true, false, Option, none, some, List, [], ◌∷◌, if◌then◌else◌, Result, ok,
  err,
}
use desk_unlock.Presence.Outcome.{PeripheralError}

-- For each further read whether it fails, and for each further change whether it is lost; past the
-- end of the lists every call succeeds.
pub record Adapter : Type 0 where
  pub flag : Bool
  pub failing_reads : List Bool
  pub lost_changes : List Bool

abbrev pub reading : List Bool → Adapter → Bool × Adapter
reading [] a = (a.flag, a)
reading (true ∷ rs) a = (false, record a { failing_reads = rs })
reading (false ∷ rs) a = (a.flag, record a { failing_reads = rs })

-- `adapter.pairable().await.unwrap_or(false)`.
abbrev pub pairable : Adapter → Bool × Adapter
pairable a = reading a.failing_reads a

abbrev pub changing : List Bool → Bool → Adapter → Adapter
changing [] value a = record a { flag = value }
changing (true ∷ cs) value a = record a { lost_changes = cs }
changing (false ∷ cs) value a = record a { flag = value; lost_changes = cs }

-- `let _ = adapter.set_pairable(value).await`.
abbrev pub set_pairable : Bool → Adapter → Adapter
set_pairable value a = changing a.lost_changes value a

abbrev pub adapter_mode_retries : ℕ
adapter_mode_retries = 10

pub record PairAgentRestore : Type 0 where
  pub previous_pairable : Option Bool

abbrev pub from_pairable : Bool → Bool → PairAgentRestore
from_pairable changed previous = record {
  previous_pairable = if changed then some previous else none;
}

pub record PairAgentSession (H : Type 0) : Type 0 where
  pub handle : Option H
  pub restore : Option PairAgentRestore

-- The loop of `ensure_pairable_with`, by the rounds that are left.
unfoldable pub retry : ℕ → Adapter → Result PeripheralError Bool × Adapter
retry zero a = (err PeripheralError.backend, a)
retry (suc left) a =
    let (effective, a') = pairable (set_pairable true a) in
    let rest = retry left a' in if effective then (ok true, a') else rest

unfoldable pub ensure_pairable_with : ℕ → Adapter → Result PeripheralError Bool × Adapter
ensure_pairable_with retries a =
    let (already, a') = pairable a in if already then (ok false, a') else retry retries a'

abbrev pub restored : Option PairAgentRestore → Adapter → Adapter
restored none a = a
restored (some r) a = elim r.previous_pairable [ none ↦ a | some value ↦ set_pairable value a ]

module _ {H : Type 0} where
  abbrev pub is_held : PairAgentSession H → Bool
  is_held s = elim s.handle [ none ↦ false | some _ ↦ true ]

  abbrev pub begin : H → PairAgentRestore → PairAgentSession H
  begin handle restore = record { handle = some handle; restore = some restore }

  -- `self.handle.take()?; self.restore.take()`.
  abbrev pub ended : Option H → PairAgentSession H → Option PairAgentRestore × PairAgentSession H
  ended none s = (none, s)
  ended (some _) s = (s.restore, record { handle = none; restore = none })

  unfoldable pub end_session : PairAgentSession H → Option PairAgentRestore × PairAgentSession H
  end_session s = ended s.handle s

  -- The registration, after the flag was found or made true.
  unfoldable pub register :
      Bool
      → Option H
      → PairAgentSession H
      → Result PeripheralError Bool × Adapter
      → Result PeripheralError (Unit {0}) × Adapter × PairAgentSession H
  register previous registered s (err e, a) = (err e, a, s)
  register previous (some handle) s (ok changed, a) =
      (ok tt, a, begin handle (from_pairable changed previous))
  register previous none s (ok changed, a) =
      (err PeripheralError.backend, if changed then set_pairable previous a else a, s)

  unfoldable pub acquire_pair_agent_with :
      Option H
      → PairAgentSession H
      → Adapter
      → Result PeripheralError (Unit {0}) × Adapter × PairAgentSession H
  acquire_pair_agent_with registered s a =
      let (previous, a') = pairable a in
      if is_held s
      then (ok tt, a, s)
      else register previous registered s (ensure_pairable_with adapter_mode_retries a')

  unfoldable pub release_pair_agent_with :
      PairAgentSession H → Adapter → Adapter × PairAgentSession H
  release_pair_agent_with s a = let (plan, s') = end_session s in (restored plan a, s')
