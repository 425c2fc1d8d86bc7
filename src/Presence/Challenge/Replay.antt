-- ===== src/Presence/Challenge/Replay.antt =====
-- Runs of challenges of crates/syauth-presenced/src/orchestrator.rs, and the nonces that they use
-- up.
use desk_unlock.Prelude.{
  ◌≡◌, ◌≢◌, ◌≤◌, refl, ap, sym, ◌∙◌, arith, some, ℕ, suc, ◌+◌, List, [], ◌∷◌, String, str_eq,
  str_eq→eq, eq→str_eq, some-injective, length, Option-cases, Bool-cases, inl, inr, subst,
}
use desk_unlock.Auth.Frame.{encode, body_bytes}
use desk_unlock.Auth.Crypto.{Crypto, verify_frame}
use desk_unlock.Presence.NonceCache.{contains, insert}
use desk_unlock.Presence.NonceCache.Window.{IsBounded}
use desk_unlock.Presence.Outcome.{ChallengeOutcome, outcome_for_transport}
use desk_unlock.Presence.Peers.{PeerEntry, get}
use desk_unlock.Presence.Peers.Laws.{get-put_same, get-put_other}
use desk_unlock.Presence.Challenge.{
  Attempt, Daemon, parse_signature, run_challenge, lookup_peer, challenged, issue_challenge,
  stamped,
}
use desk_unlock.Presence.Challenge.Security.{issue_challenge-accepted, lookup_peer-some}
use desk_unlock.Presence.NonceCache.Memory.{
  StepsTo, Holds, StepsTo-Holds, Holds-contains, Holds-suc,
}

module _ (c : Crypto) where
  run_challenge-StepsTo :
      (att : Attempt) (p : PeerEntry) (key nonce : List ℕ)
      → StepsTo nonce p.nonce_cache (run_challenge c att p key nonce).0.nonce_cache
  unfolding run_challenge body_bytes encode parse_signature verify_frame
  run_challenge-StepsTo att p key nonce = ground arith

  run_challenge_inserts :
      (att : Attempt) (p : PeerEntry) (key nonce : List ℕ) {sig : List ℕ}
      → (run_challenge c att p key nonce).2 ≡ ChallengeOutcome.accepted sig
      → (run_challenge c att p key nonce).0.nonce_cache ≡ insert p.nonce_cache nonce
  unfolding run_challenge body_bytes encode parse_signature verify_frame outcome_for_transport
  run_challenge_inserts att p key nonce {sig} h = ground arith

  -- What a challenge does to the entry of a peer that it finds.
  challenged_entry :
      (att : Attempt) (d : Daemon) (id : String) (p : PeerEntry) (key : List ℕ)
      → get d.peers id ≡ some p
      → (p' : PeerEntry) × (n : List ℕ) × (get (challenged c att d id (p, key)).0.peers id
          ≡ some p')
        × StepsTo n p.nonce_cache p'.nonce_cache
  unfolding challenged
  challenged_entry att d id p key g = elim (Bool-cases att.admitted) [
    | inr out ↦ (p, [], ground arith, inl refl)
    | inl inside ↦ elim (Option-cases att.random) [
      | inl e ↦ (
        stamped att.now p,
        [],
        rw (inside, e) (get-put_same d.peers id (stamped att.now p)),
        inl refl,
      )
      | inr (nonce, e) ↦
          let v = run_challenge c att (stamped att.now p) key nonce in
          (
            v.0,
            nonce,
            rw (inside, e) (get-put_same d.peers id v.0),
            run_challenge-StepsTo att (stamped att.now p) key nonce,
          )
    ]
  ]

  challenged_other :
      (att : Attempt) (d : Daemon) (j id : String) (q : PeerEntry × List ℕ)
      → j ≢ id
      → get (challenged c att d j q).0.peers id ≡ get d.peers id
  unfolding challenged
  challenged_other att d j id (q, key) n = elim (Bool-cases att.admitted) [
    | inr out ↦ rw out refl
    | inl inside ↦ elim (Option-cases att.random) [
      | inl e ↦ rw (inside, e) (get-put_other d.peers j id (stamped att.now q) n)
      | inr (nonce, e) ↦
          rw (inside, e)
            (get-put_other d.peers j id (run_challenge c att (stamped att.now q) key nonce).0 n)
    ]
  ]

-- The peer's cache holds a nonce.
abbrev Remembers : String → List ℕ → ℕ → Daemon → Type 0
Remembers id n k d = (p : PeerEntry) × (get d.peers id ≡ some p) × Holds n k p.nonce_cache

Remembers-suc :
    (id : String) (n : List ℕ) (k : ℕ) (d : Daemon) → Remembers id n k d → Remembers id n (suc k) d
Remembers-suc id n k d (p, g, h) = (p, g, Holds-suc n k p.nonce_cache h)

-- Challenges of any peers, one after the other.
abbrev pub issue_all : Crypto → List (String × Attempt) → Daemon → Daemon
issue_all c [] d = d
issue_all c ((j, att) ∷ rest) d = issue_all c rest (issue_challenge c att d j).0

module _ (c : Crypto) where
  challenged-Remembers :
      (att : Attempt) (d : Daemon) (j id : String) (q : PeerEntry) (key n : List ℕ) (k : ℕ)
      → get d.peers j ≡ some q
      → Remembers id n k d
      → Remembers id n (suc k) (challenged c att d j (q, key)).0
  challenged-Remembers att d j id q key n k known (p, g, h) = elim (Bool-cases (str_eq j id)) [
    | inl e ↦
        let same : j ≡ id = str_eq→eq j id e in
        let q≡p : q ≡ p = some-injective (sym known ∙ ap (get d.peers) same ∙ g) in
        let (p', m, g', s) = challenged_entry c att d j q key known in
        (
          p',
          ap (get (challenged c att d j (q, key)).0.peers) (sym same) ∙ g',
          StepsTo-Holds n m k q.nonce_cache p'.nonce_cache s
              (subst (λ x. Holds n k x.nonce_cache) (sym q≡p) h),
        )
    | inr e ↦
        let other : j ≢ id = λ same. ground (arith, eq→str_eq j id same) in
        (p, challenged_other c att d j id (q, key) other ∙ g, Holds-suc n k p.nonce_cache h)
  ]

  issue-Remembers :
      (att : Attempt) (d : Daemon) (j id : String) (n : List ℕ) (k : ℕ)
      → Remembers id n k d
      → Remembers id n (suc k) (issue_challenge c att d j).0
  unfolding issue_challenge
  issue-Remembers att d j id n k h = elim (Option-cases (lookup_peer d j)) [
    | inl e ↦ rw (e, issue_challenge) (Remembers-suc id n k d h)
    | inr ((q, key), e) ↦
        rw (e, issue_challenge)
          (challenged-Remembers att d j id q key n k (lookup_peer-some c d j q key e).0 h)
  ]

  issue_all-Remembers :
      (rest : List (String × Attempt)) (d : Daemon) (id : String) (n : List ℕ) (k : ℕ)
      → Remembers id n k d
      → Remembers id n (k + length rest) (issue_all c rest d)
  issue_all-Remembers [] d id n k h =
      subst (λ i. Remembers id n i d) {x = k} {y = k + 0} (omega arith) h
  issue_all-Remembers ((j, att) ∷ rest) d id n k h =
      subst (λ i. Remembers id n i (issue_all c rest (issue_challenge c att d j).0))
        {x = suc k + length rest} {y = k + suc (length rest)} (omega arith)
        (issue_all-Remembers rest (issue_challenge c att d j).0 id n (suc k)
          (issue-Remembers att d j id n k h))

  challenged-accepted-insert :
      (att : Attempt) (d : Daemon) (id : String) (p : PeerEntry) (key n : List ℕ) {sig : List ℕ}
      → att.random ≡ some n
      → (challenged c att d id (p, key)).1 ≡ ChallengeOutcome.accepted sig
      → (p' : PeerEntry) × (get (challenged c att d id (p, key)).0.peers id ≡ some p')
        × (p'.nonce_cache ≡ insert p.nonce_cache n)
  unfolding challenged
  challenged-accepted-insert att d id p key n {sig} r h = elim (Bool-cases att.admitted) [
    | inr out ↦ absurd (ground arith)
    | inl inside ↦
        let v = run_challenge c att (stamped att.now p) key n in
        let took : v.2 ≡ ChallengeOutcome.accepted sig = ground arith in
        (
          v.0,
          rw (inside, r) (get-put_same d.peers id v.0),
          run_challenge_inserts c att (stamped att.now p) key n took,
        )
  ]

  -- An accepted challenge puts its nonce into the peer's cache.
  pub accepted-insert :
      (att : Attempt) (d : Daemon) (id : String) (p : PeerEntry) (n : List ℕ) {sig : List ℕ}
      → get d.peers id ≡ some p
      → att.random ≡ some n
      → (issue_challenge c att d id).1 ≡ ChallengeOutcome.accepted sig
      → (p' : PeerEntry) × (get (issue_challenge c att d id).0.peers id ≡ some p')
        × (p'.nonce_cache ≡ insert p.nonce_cache n)
  unfolding issue_challenge
  accepted-insert att d id p n {sig} g r h = elim (Option-cases (lookup_peer d id)) [
    | inl e ↦ absurd (ground arith)
    | inr ((q, key), e) ↦
        let same : p ≡ q = some-injective (sym g ∙ (lookup_peer-some c d id q key e).0) in
        let (p', found, put) =
          challenged-accepted-insert att d id q key n {sig = sig} r (ground arith) in
        (
          p',
          rw (e, issue_challenge) found,
          put ∙ ap (λ (x : PeerEntry). insert x.nonce_cache n) (sym same),
        )
  ]

  accepted-Remembers :
      (att : Attempt) (d : Daemon) (id : String) (p : PeerEntry) (n : List ℕ) {sig : List ℕ}
      → get d.peers id ≡ some p
      → IsBounded p.nonce_cache
      → att.random ≡ some n
      → (issue_challenge c att d id).1 ≡ ChallengeOutcome.accepted sig
      → Remembers id n 0 (issue_challenge c att d id).0
  accepted-Remembers att d id p n {sig} g b r h =
      let (p', found, put) = accepted-insert att d id p n {sig = sig} g r h in
      (p', found, (p.nonce_cache, [], b, omega arith, put))

  -- A nonce that a peer's challenge was accepted with is not accepted for that peer again: after at
  -- most 63 further challenges, of any peers and with any outcomes, a challenge with the same nonce
  -- is refused, if the peer's cache held at most 64 nonces before.
  pub nonce_is_single_use :
      (att again : Attempt) (d : Daemon) (id : String) (p : PeerEntry) (n : List ℕ)
      (rest : List (String × Attempt)) {sig sig' : List ℕ}
      → get d.peers id ≡ some p
      → IsBounded p.nonce_cache
      → att.random ≡ some n
      → again.random ≡ some n
      → length rest ≤ 63
      → (issue_challenge c att d id).1 ≡ ChallengeOutcome.accepted sig
      → (issue_challenge c again (issue_all c rest (issue_challenge c att d id).0) id).1
        ≢ ChallengeOutcome.accepted sig'
  nonce_is_single_use att again d id p n rest {sig} {sig'} g b r r' l h bad =
      let (q, found, holds) =
        issue_all-Remembers rest (issue_challenge c att d id).0 id n 0
          (accepted-Remembers att d id p n {sig = sig} g b r h) in
      let (q', _, m, found', _, random, _, (_, _, unseen)) =
        issue_challenge-accepted c again (issue_all c rest (issue_challenge c att d id).0) id bad in
      let q≡ : q ≡ q' = some-injective (sym found ∙ found') in
      let m≡ : n ≡ m = some-injective (sym r' ∙ random) in
      let seen = Holds-contains n (0 + length rest) q.nonce_cache (omega (arith, l)) holds in
      ground (
        arith,
        ap (λ (x : PeerEntry). contains x.nonce_cache n) q≡,
        ap (contains q'.nonce_cache) m≡,
      )
