-- ===== src/Peripheral/PairAgent/Restore.antt =====
-- What a pair session leaves of the adapter's flag in crates/syauth-transport/src/peripheral.rs.
use desk_unlock.Prelude.{
  ◌≡◌, ◌≢◌, ◌⊎◌, refl, ap, sym, ◌∙◌, ℕ, zero, suc, Bool, true, false, arith, none, some, ok, err,
  Option, List, [], ◌∷◌, Result,
}
use desk_unlock.Presence.Outcome.{PeripheralError}
use desk_unlock.Peripheral.PairAgent.{
  Adapter, set_pairable, PairAgentSession, retry, ensure_pairable_with, is_held, end_session,
  register, acquire_pair_agent_with, release_pair_agent_with, adapter_mode_retries,
}

-- With reads that do not fail, the loop either made the flag true or left it false.
retry_lem :
    (left : ℕ) (a : Adapter)
    → a.flag ≡ false
    → a.failing_reads ≡ []
    → let (r, a') = retry left a in
      (a'.failing_reads ≡ [])
      × (((r ≡ ok true) × (a'.flag ≡ true))
          ⊎ ((r ≡ err PeripheralError.backend) × (a'.flag ≡ false)))
unfolding retry
retry_lem zero a off reads = ground arith
retry_lem (suc left) a off reads = ground (arith, retry_lem left (set_pairable true a))

ensure_lem :
    (a : Adapter)
    → a.failing_reads ≡ []
    → let (r, a') = ensure_pairable_with adapter_mode_retries a in
      (a'.failing_reads ≡ [])
      × (((r ≡ ok false) × (a' ≡ a) × (a.flag ≡ true))
          ⊎ ((r ≡ ok true) × (a'.flag ≡ true) × (a.flag ≡ false))
          ⊎ ((r ≡ err PeripheralError.backend) × (a'.flag ≡ false) × (a.flag ≡ false)))
unfolding ensure_pairable_with
ensure_lem a reads = ground (arith, retry_lem adapter_mode_retries a)

-- With nothing lost and no read failing, the first round makes the flag true.
retry_first :
    (left : ℕ) (a : Adapter)
    → a.failing_reads ≡ []
    → a.lost_changes ≡ []
    → retry (suc left) a ≡ (ok true, record a { flag = true })
unfolding retry
retry_first left a reads lost = ground arith

ensure_lost :
    (a : Adapter)
    → a.failing_reads ≡ []
    → a.lost_changes ≡ []
    → (ensure_pairable_with adapter_mode_retries a).1.lost_changes ≡ []
unfolding ensure_pairable_with
ensure_lost a reads lost = ground (arith, retry_first 9 a)

misread :
    (later : List Bool)
    → ensure_pairable_with adapter_mode_retries
        (record { flag = true; failing_reads = true ∷ false ∷ later; lost_changes = [] })
      ≡ (ok true, record { flag = true; failing_reads = later; lost_changes = [] })
unfolding ensure_pairable_with retry
misread later = refl

module _ {H : Type 0} where
  -- What a successful registration holds is restored by the release.
  registered-restored :
      (registered : Option H) (s : PairAgentSession H) (a : Adapter)
      (r : Result PeripheralError Bool × Adapter)
      → ((r.0 ≡ ok false) × (r.1 ≡ a) × (a.flag ≡ true))
        ⊎ ((r.0 ≡ ok true) × (r.1.flag ≡ true) × (a.flag ≡ false))
        ⊎ ((r.0 ≡ err PeripheralError.backend) × (r.1.flag ≡ false) × (a.flag ≡ false))
      → (register a.flag registered s r).0 ≡ ok tt
      → let (_, a', s') = register a.flag registered s r in
        let (a2, s2) = release_pair_agent_with s' (record a' { lost_changes = [] }) in
        (is_held s' ≡ true) × (a'.flag ≡ true) × (a2.flag ≡ a.flag) × (s2.handle ≡ none)
  unfolding release_pair_agent_with register end_session
  registered-restored registered s a (err e, b) h done = absurd (ground arith)
  registered-restored none s a (ok changed, b) h done = absurd (ground arith)
  registered-restored (some k) s a (ok true, b) h done = ground arith
  registered-restored (some k) s a (ok false, b) h done = ground arith

  -- A pair session gives the adapter back as it found it, if the flag can be read: while it is held
  -- the flag is true, and its release sets the flag to what it was before, if that change takes effect.
  pub release-acquire :
      (registered : Option H) (s : PairAgentSession H) (a : Adapter)
      → s.handle ≡ none
      → a.failing_reads ≡ []
      → (acquire_pair_agent_with registered s a).0 ≡ ok tt
      → let (_, a', s') = acquire_pair_agent_with registered s a in
        let (a2, s2) = release_pair_agent_with s' (record a' { lost_changes = [] }) in
        (is_held s' ≡ true) × (a'.flag ≡ true) × (a2.flag ≡ a.flag) × (s2.handle ≡ none)
  unfolding acquire_pair_agent_with
  release-acquire registered s a free reads done =
      let same : acquire_pair_agent_with registered s a
          ≡ register a.flag registered s (ensure_pairable_with adapter_mode_retries a) =
        ground arith in
      rw same (
        registered-restored registered s a (ensure_pairable_with adapter_mode_retries a)
          (ensure_lem a reads).1 (ap (λ x. x.0) (sym same) ∙ done))

  failed-kept :
      (registered : Option H) (s : PairAgentSession H) (a : Adapter)
      (r : Result PeripheralError Bool × Adapter)
      → ((r.0 ≡ ok false) × (r.1 ≡ a) × (a.flag ≡ true))
        ⊎ ((r.0 ≡ ok true) × (r.1.flag ≡ true) × (a.flag ≡ false))
        ⊎ ((r.0 ≡ err PeripheralError.backend) × (r.1.flag ≡ false) × (a.flag ≡ false))
      → (register a.flag registered s r).0 ≢ ok tt
      → r.1.lost_changes ≡ []
      → let (_, a', s') = register a.flag registered s r in (s' ≡ s) × (a'.flag ≡ a.flag)
  unfolding register
  failed-kept registered s a (err e, b) h fails lost = ground arith
  failed-kept none s a (ok true, b) h fails lost = ground arith
  failed-kept none s a (ok false, b) h fails lost = ground arith
  failed-kept (some k) s a (ok changed, b) h fails lost = absurd (fails refl)

  -- An acquisition that fails leaves no agent held and the flag as it was, if the flag can be read and
  -- changes take effect.
  acquire_failed :
      (registered : Option H) (s : PairAgentSession H) (a : Adapter)
      → s.handle ≡ none
      → a.failing_reads ≡ []
      → a.lost_changes ≡ []
      → (acquire_pair_agent_with registered s a).0 ≢ ok tt
      → let (_, a', s') = acquire_pair_agent_with registered s a in (s' ≡ s) × (a'.flag ≡ a.flag)
  unfolding acquire_pair_agent_with
  acquire_failed registered s a free reads lost fails =
      let same : acquire_pair_agent_with registered s a
          ≡ register a.flag registered s (ensure_pairable_with adapter_mode_retries a) =
        ground arith in
      rw same (
        failed-kept registered s a (ensure_pairable_with adapter_mode_retries a)
          (ensure_lem a reads).1 (λ done. fails (ap (λ x. x.0) same ∙ done))
          (ensure_lost a reads lost))

  -- The flag was true, and the first two reads fail: the session takes the flag for its own change,
  -- and its release sets it to false.
  acquire_misread :
      (k : H) (s : PairAgentSession H) (later : List Bool)
      → s.handle ≡ none
      → let a : Adapter = record {
        flag = true;
        failing_reads = true ∷ true ∷ false ∷ later;
        lost_changes = [];
      } in
        let (r, a', s') = acquire_pair_agent_with (some k) s a in
        (r ≡ ok tt) × (a'.flag ≡ true) × ((release_pair_agent_with s' a').0.flag ≡ false)
  unfolding acquire_pair_agent_with register release_pair_agent_with end_session
  acquire_misread k s later free =
      let a : Adapter = record {
        flag = true;
        failing_reads = true ∷ true ∷ false ∷ later;
        lost_changes = [];
      } in
      rw (free, misread later, acquire_pair_agent_with) (refl, refl, refl)
