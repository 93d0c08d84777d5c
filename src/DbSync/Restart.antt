-- ===== src/DbSync/Restart.antt =====
-- guardian-network/src/guardian/db-sync.ts: an agent that starts anew, and guardians that have its
-- snapshots of before.
use attested_capital.Base.{
  ℕ, suc, ◌+◌, ◌≤◌, String, none, List, [], ◌∷◌, length, ◌≡◌, refl, ◌∙◌, arith,
}
use attested_capital.Envelope.{create_envelope}
use attested_capital.DbSync.{
  DbSnapshot, Host, Receiver, Replica, Outcome, accepted, rejected, Options, create_snapshot,
  receive_snapshot,
}
use attested_capital.DbSync.Replicas.{Advances, receive_snapshot-Advances}

-- A snapshot on its way: when it is made and when it comes, its nonce, and the database.
pub record Sending : Type 0 where
  pub sent_at : ℕ
  pub received_at : ℕ
  pub nonce : String
  pub db : String

-- The snapshots of one agent, one after the other, at one guardian.
unfoldable pub relay : Host → Options → String → List Sending → ℕ → Replica → Replica
relay host options node_id [] sequence_num r = r
relay host options node_id (x ∷ rest) sequence_num r =
    let (e, next) = create_snapshot host node_id x.sent_at x.nonce x.db sequence_num in
    relay host options node_id rest next (receive_snapshot host options x.received_at e r).1

not_newer-kept :
    (s : DbSnapshot) (old : Receiver) (x : Outcome × Replica)
    → s.sequence_num ≤ old.latest_sequence
    → Advances s old x
    → x.1.receiver ≡ old
not_newer-kept s old (accepted n, r) stale h = absurd (omega (arith, h.0, h.1))
not_newer-kept s old (rejected why, r) stale h = h

module _ (host : Host) (options : Options) (node_id : String)
    (reads : (s : DbSnapshot) → (host.parse (host.stringify s)).sequence_num ≡ s.sequence_num) where
  one-kept :
      (x : Sending) (sequence_num : ℕ) (r : Replica)
      → suc sequence_num ≤ r.receiver.latest_sequence
      → (receive_snapshot host options x.received_at
          (create_snapshot host node_id x.sent_at x.nonce x.db sequence_num).0
          r).1.receiver
        ≡ r.receiver
  unfolding create_snapshot create_envelope
  one-kept x sequence_num r stale =
      let e = (create_snapshot host node_id x.sent_at x.nonce x.db sequence_num).0 in
      let s : DbSnapshot = record {
        encrypted = host.encrypt x.db;
        sequence_num = suc sequence_num;
        checksum = host.checksum x.db;
        attestation_quote = none;
      } in
      not_newer-kept (host.parse e.payload) r.receiver
        (receive_snapshot host options x.received_at e r) (omega (arith, reads s))
        (receive_snapshot-Advances host options x.received_at e r)

  -- As long as an agent that counts its snapshots anew has not sent more of them than the number
  -- that a guardian has seen, the guardian keeps what it had; provided that a number is read as it
  -- was written.
  pub relay-ignored :
      (sent : List Sending) (sequence_num : ℕ) (r : Replica)
      → sequence_num + length sent ≤ r.receiver.latest_sequence
      → (relay host options node_id sent sequence_num r).receiver ≡ r.receiver
  unfolding relay create_snapshot
  relay-ignored [] sequence_num r stale = refl
  relay-ignored (x ∷ rest) sequence_num r stale =
      let kept = one-kept x sequence_num r (omega arith) in
      relay-ignored rest (suc sequence_num) _ (rw kept (omega arith)) ∙ kept
