-- ===== src/DbSync/Replicas.antt =====
-- guardian-network/src/guardian/db-sync.ts: what a guardian keeps of the snapshots that come.
use attested_capital.Base.{
  ℕ, ◌<◌, leb, String, Bool, true, false, Option, none, some, if◌then◌else◌, ◌≡◌, refl, subst,
  arith,
}
use attested_capital.Envelope.{SignedEnvelope, Fault, verify_envelope}
use attested_capital.Envelope.Nonces.{Tracker}
use attested_capital.Agents.TrustStore.{TrustedPeer, get_peer}
use attested_capital.DbSync.{
  DbSnapshot, Host, Receiver, Replica, Rejection, attestation_failed, attestation_required, stale,
  Outcome, accepted, rejected, Options, with_nonces, decrypted, stored, unless_rejected,
  store_snapshot, attest_snapshot, receive_verified, receive_from, receive_snapshot,
}

-- An accepted snapshot is newer than all before, and is what is kept; a rejected one changes
-- nothing of what is kept.
abbrev pub Advances : DbSnapshot → Receiver → Outcome × Replica → Type 0
Advances s old (accepted n, r) =
    (n ≡ s.sequence_num)
    × (old.latest_sequence < n)
    × (r.receiver ≡ record { latest_sequence = n; latest_encrypted = some s })
Advances s old (rejected why, r) = r.receiver ≡ old

module _ (host : Host) (options : Options) where
  store_snapshot-Advances :
      (s : DbSnapshot) (r : Replica) → Advances s r.receiver (store_snapshot host options s r)
  unfolding store_snapshot
  store_snapshot-Advances s r =
      by_tests (leb s.sequence_num r.receiver.latest_sequence) (decrypted host options s) refl
    where
      by_tests :
          (old : Bool) (d : Option Rejection)
          → leb s.sequence_num r.receiver.latest_sequence ≡ old
          → Advances s r.receiver (
              if old
              then (rejected stale, r)
              else unless_rejected d (accepted s.sequence_num, stored s r) r)
      by_tests true d same = refl
      by_tests false (some why) same = refl
      by_tests false none same = (refl, ground arith, refl)

  attest_snapshot-Advances :
      (now : ℕ) (peer : TrustedPeer) (s : DbSnapshot) (quote : Option String) (r : Replica)
      → Advances s r.receiver (attest_snapshot host options now peer s quote r)
  unfolding attest_snapshot
  attest_snapshot-Advances now peer s (some quote) r =
      by_test _ (host.attest quote peer.ed25519_pubkey) (store_snapshot-Advances s _)
    where
      by_test :
          (x : Outcome × Replica) (b : Bool)
          → Advances s r.receiver x
          → Advances s r.receiver (if b then x else (rejected attestation_failed, r))
      by_test x true h = h
      by_test x false h = refl
  attest_snapshot-Advances now peer s none r =
      by_test _ options.require_attestation (store_snapshot-Advances s r)
    where
      by_test :
          (x : Outcome × Replica) (b : Bool)
          → Advances s r.receiver x
          → Advances s r.receiver (if b then (rejected attestation_required, r) else x)
      by_test x true h = refl
      by_test x false h = h

  receive_verified-Advances :
      (now : ℕ) (peer : TrustedPeer) (e : SignedEnvelope) (fault : Option Fault) (r : Replica)
      → Advances
          (host.parse e.payload)
          r.receiver
          (receive_verified host options now peer e fault r)
  unfolding receive_verified
  receive_verified-Advances now peer e (some fault) r = refl
  receive_verified-Advances now peer e none r = attest_snapshot-Advances now peer _ _ r

  with_nonces-receiver :
      (o : Option Tracker) (r : Replica) → (with_nonces o r).receiver ≡ r.receiver
  with_nonces-receiver none r = refl
  with_nonces-receiver (some t) r = refl

  receive_from-Advances :
      (now : ℕ) (e : SignedEnvelope) (o : Option TrustedPeer) (r : Replica)
      → Advances (host.parse e.payload) r.receiver (receive_from host options now e o r)
  unfolding receive_from
  receive_from-Advances now e none r = refl
  receive_from-Advances now e (some peer) r =
      let v =
        verify_envelope host.crypto options.nonce_cache_size now options.max_age peer.ed25519_pubkey
          e (some r.trust.nonces) in
      subst
        (λ old.
          Advances (host.parse e.payload) old
            (receive_verified host options now peer e v.0 (with_nonces v.1 r)))
        (with_nonces-receiver v.1 r) (receive_verified-Advances now peer e v.0 (with_nonces v.1 r))

  -- A snapshot that is accepted has a greater number than all before and is what the guardian
  -- keeps; one that is rejected, for whatever reason, changes nothing of what is kept.
  pub receive_snapshot-Advances :
      (now : ℕ) (e : SignedEnvelope) (r : Replica)
      → Advances (host.parse e.payload) r.receiver (receive_snapshot host options now e r)
  unfolding receive_snapshot
  receive_snapshot-Advances now e r = receive_from-Advances now e (get_peer e.sender r.trust) r
