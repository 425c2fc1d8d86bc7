-- ===== src/Presence/Challenge/Security.antt =====
-- What an accepted challenge has shown, and what the audit log says of any challenge.
use desk_unlock.Prelude.{
  ◌≡◌, true, false, arith, some, ℕ, List, [], ◌∷◌, ◌++◌, String, Option-cases, inl, inr, Bool-cases,
}
use desk_unlock.Auth.Frame.{encode, body_bytes}
use desk_unlock.Auth.Crypto.{Crypto, verify_frame}
use desk_unlock.Presence.NonceCache.{contains}
use desk_unlock.Presence.Outcome.{ChallengeOutcome, reason_str, outcome_for_transport}
use desk_unlock.Presence.Peers.{PeerEntry, get}
use desk_unlock.Presence.Challenge.{
  Attempt, Daemon, parse_signature, run_challenge, lookup_peer, challenged, issue_challenge,
  stamped, zero_nonce,
}

-- The bytes that a phone signs: the version and the nonce.
abbrev pub signed_body : List ℕ → List ℕ
signed_body nonce = 1 ∷ (nonce ++ [])

-- What an accepted signature shows.
abbrev Shown : Crypto → PeerEntry → List ℕ → List ℕ → List ℕ → Type 0
Shown c p key nonce sig =
    (c.is_key key ≡ true)
    × (c.verify_strict key (signed_body nonce) sig ≡ true)
    × (contains p.nonce_cache nonce ≡ false)

module _ (c : Crypto) where
  run_challenge-Shown :
      (att : Attempt) (p : PeerEntry) (key nonce : List ℕ) {sig : List ℕ}
      → (run_challenge c att p key nonce).2 ≡ ChallengeOutcome.accepted sig
      → Shown c p key nonce sig
  unfolding run_challenge body_bytes encode parse_signature verify_frame outcome_for_transport
  run_challenge-Shown att p key nonce {sig} h = ground arith

  -- The reason that a verdict is audited with is the outcome's own.
  run_challenge_reason :
      (att : Attempt) (p : PeerEntry) (key nonce : List ℕ)
      → let (_, reason, outcome) = run_challenge c att p key nonce in reason ≡ reason_str outcome
  unfolding run_challenge body_bytes encode parse_signature verify_frame reason_str
  run_challenge_reason att p key nonce = ground arith

  -- What an accepted challenge shows of the daemon before it.
  abbrev pub Established : Attempt → Daemon → String → List ℕ → Type 0
  Established att d id sig =
      (p : PeerEntry) × (key : List ℕ) × (nonce : List ℕ) × (get d.peers id ≡ some p)
      × (p.phone_pubkey ≡ some key)
      × (att.random ≡ some nonce)
      × (att.admitted ≡ true)
      × Shown c p key nonce sig

  challenged-accepted :
      (att : Attempt) (d : Daemon) (id : String) (p : PeerEntry) (key : List ℕ) {sig : List ℕ}
      → (challenged c att d id (p, key)).1 ≡ ChallengeOutcome.accepted sig
      → (nonce : List ℕ) × (att.random ≡ some nonce)
        × (att.admitted ≡ true)
        × Shown c p key nonce sig
  unfolding challenged
  challenged-accepted att d id p key {sig} h = elim (Option-cases att.random) [
    | inl e ↦ absurd (ground arith)
    | inr (nonce, e) ↦ (
      nonce,
      e,
      ground arith,
      run_challenge-Shown att (stamped att.now p) key nonce (ground arith),
    )
  ]

  pub lookup_peer-some :
      (d : Daemon) (id : String) (p : PeerEntry) (key : List ℕ)
      → lookup_peer d id ≡ some (p, key)
      → (get d.peers id ≡ some p) × (p.phone_pubkey ≡ some key)
  unfolding lookup_peer
  lookup_peer-some d id p key h = (ground arith, ground arith)

  -- A challenge is accepted only for a registered peer, with a signature of the version and of this
  -- challenge's own random nonce that verifies under the peer's key, and with a nonce that the peer's
  -- cache does not hold.
  pub issue_challenge-accepted :
      (att : Attempt) (d : Daemon) (id : String) {sig : List ℕ}
      → (issue_challenge c att d id).1 ≡ ChallengeOutcome.accepted sig
      → Established att d id sig
  unfolding issue_challenge
  issue_challenge-accepted att d id {sig} h = elim (Option-cases (lookup_peer d id)) [
    | inl e ↦ absurd (ground arith)
    | inr ((p, key), e) ↦
        let (registered, known) = lookup_peer-some d id p key e in
        let (nonce, random, admitted, shown) = challenged-accepted att d id p key (ground arith) in
        (p, key, nonce, registered, known, random, admitted, shown)
  ]

  challenged_audited :
      (att : Attempt) (d : Daemon) (id : String) (p : PeerEntry) (key : List ℕ)
      → (nonce : List ℕ) × let (d', outcome) = challenged c att d id (p, key) in
          d'.audit ≡ record { peer_id = id; nonce = nonce; reason = reason_str outcome } ∷ d.audit
  unfolding challenged reason_str
  challenged_audited att d id p key = elim (Bool-cases att.admitted) [
    | inr out ↦ (zero_nonce, ground arith)
    | inl inside ↦ elim (Option-cases att.random) [
      | inl e ↦ (zero_nonce, ground arith)
      | inr (nonce, e) ↦
          (nonce, ground (arith, run_challenge_reason att (stamped att.now p) key nonce))
    ]
  ]

  -- Every challenge, whatever its outcome, adds one line to the audit log: for this peer, with the
  -- reason of its outcome.
  issue_challenge-audit :
      (att : Attempt) (d : Daemon) (id : String)
      → (nonce : List ℕ) × let (d', outcome) = issue_challenge c att d id in
          d'.audit ≡ record { peer_id = id; nonce = nonce; reason = reason_str outcome } ∷ d.audit
  unfolding issue_challenge reason_str
  issue_challenge-audit att d id = elim (Option-cases (lookup_peer d id)) [
    | inl e ↦ (zero_nonce, ground arith)
    | inr ((p, key), e) ↦
        let (nonce, line) = challenged_audited att d id p key in (nonce, ground arith)
  ]
