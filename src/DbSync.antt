-- ===== src/DbSync.antt =====
-- guardian-network/src/guardian/db-sync.ts: the encrypted snapshots of the fund's database that the
-- agent sends and the guardians keep. The texts for `onEvent` are left out.
pub mod Replicas
pub mod Restart
mod Examples
use attested_capital.Base.{
  ℕ, suc, leb, str_eq, not, ◌&&◌, String, Bool, true, false, Option, none, some, List, [], ◌∷◌,
  if◌then◌else◌,
}
use attested_capital.Envelope.{SignedEnvelope, Fault, Crypto, create_envelope, verify_envelope}
use attested_capital.Envelope.Nonces.{Tracker}
use attested_capital.Agents.TrustStore.{Trust, TrustedPeer, get_peer, touch_peer}

pub record Encrypted : Type 0 where
  pub ciphertext : String
  pub iv : String
  pub auth_tag : String

-- A quote that is missing or empty is `none`.
pub record DbSnapshot : Type 0 where
  pub encrypted : Encrypted
  pub sequence_num : ℕ
  pub checksum : String
  pub attestation_quote : Option String

-- What the module calls: AES-GCM with the vault key, SHA-256, JSON, and the check of a quote
-- against the sender's key. `none` of `decrypt` stands for a throw.
pub record Host : Type 0 where
  pub crypto : Crypto
  pub encrypt : String → Encrypted
  pub decrypt : Encrypted → Option String
  pub checksum : String → String
  pub stringify : DbSnapshot → String
  pub parse : String → DbSnapshot
  pub attest : String → String → Bool

-- The class `DBSnapshotManager`: the number of the last snapshot. It starts at 0.
unfoldable pub create_snapshot : Host → String → ℕ → String → String → ℕ → SignedEnvelope × ℕ
create_snapshot host node_id now nonce db sequence_num =
    let next = suc sequence_num in
    let snapshot : DbSnapshot = record {
      encrypted = host.encrypt db;
      sequence_num = next;
      checksum = host.checksum db;
      attestation_quote = none;
    } in
    (create_envelope host.crypto now nonce node_id "db.snapshot" (host.stringify snapshot), next)

pub record Receiver : Type 0 where
  pub latest_sequence : ℕ
  pub latest_encrypted : Option DbSnapshot

abbrev pub new_receiver : Receiver
new_receiver = record { latest_sequence = 0; latest_encrypted = none }

-- A guardian: whom it trusts, with the nonces that it has seen, and what it keeps.
pub record Replica : Type 0 where
  pub trust : Trust
  pub receiver : Receiver

pub data Rejection : Type 0 where
  unknown_sender : Rejection
  verification_failed : Fault → Rejection
  attestation_failed attestation_required stale checksum_mismatch decryption_failed : Rejection

pub data Outcome : Type 0 where
  accepted : ℕ → Outcome
  rejected : Rejection → Outcome

pub record Options : Type 0 where
  pub nonce_cache_size : ℕ
  pub max_age : ℕ
  pub require_attestation : Bool
  pub decrypt_and_verify : Bool

abbrev pub with_nonces : Option Tracker → Replica → Replica
with_nonces none r = r
with_nonces (some nonces) r = record r { trust = record r.trust { nonces = nonces } }

-- No rejection if the plaintext has the checksum.
unfoldable pub verify_plaintext : Host → DbSnapshot → Option String → Option Rejection
verify_plaintext host s none = some decryption_failed
verify_plaintext host s (some db) =
    if str_eq (host.checksum db) s.checksum then none else some checksum_mismatch

unfoldable pub decrypted : Host → Options → DbSnapshot → Option Rejection
unfolding verify_plaintext
decrypted host options s =
    if options.decrypt_and_verify then verify_plaintext host s (host.decrypt s.encrypted) else none

abbrev pub stored : DbSnapshot → Replica → Replica
stored s r = record r {
  receiver = record { latest_sequence = s.sequence_num; latest_encrypted = some s };
}

abbrev pub unless_rejected : Option Rejection → Outcome × Replica → Replica → Outcome × Replica
unless_rejected (some why) accept r = (rejected why, r)
unless_rejected none accept r = accept

-- The sequence number, the checksum, and the write.
unfoldable pub store_snapshot : Host → Options → DbSnapshot → Replica → Outcome × Replica
unfolding decrypted
store_snapshot host options s r =
    if leb s.sequence_num r.receiver.latest_sequence
    then (rejected stale, r)
    else unless_rejected (decrypted host options s) (accepted s.sequence_num, stored s r) r

-- The quote of this message, which renews the trust in its sender.
unfoldable pub attest_snapshot :
    Host → Options → ℕ → TrustedPeer → DbSnapshot → Option String → Replica → Outcome × Replica
unfolding store_snapshot
attest_snapshot host options now peer s (some quote) r =
    if host.attest quote peer.ed25519_pubkey
    then store_snapshot host options s (record r { trust = (touch_peer now peer.id r.trust).1 })
    else (rejected attestation_failed, r)
attest_snapshot host options now peer s none r =
    if options.require_attestation
    then (rejected attestation_required, r)
    else store_snapshot host options s r

unfoldable pub receive_verified :
    Host → Options → ℕ → TrustedPeer → SignedEnvelope → Option Fault → Replica → Outcome × Replica
unfolding attest_snapshot
receive_verified host options now peer e (some fault) r = (rejected (verification_failed fault), r)
receive_verified host options now peer e none r =
    let s = host.parse e.payload in attest_snapshot host options now peer s s.attestation_quote r

unfoldable pub receive_from :
    Host → Options → ℕ → SignedEnvelope → Option TrustedPeer → Replica → Outcome × Replica
unfolding receive_verified
receive_from host options now e none r = (rejected unknown_sender, r)
receive_from host options now e (some peer) r =
    let (fault, nonces) =
      verify_envelope host.crypto options.nonce_cache_size now options.max_age peer.ed25519_pubkey e
        (some r.trust.nonces) in
    receive_verified host options now peer e fault (with_nonces nonces r)

unfoldable pub receive_snapshot : Host → Options → ℕ → SignedEnvelope → Replica → Outcome × Replica
unfolding receive_from
receive_snapshot host options now e r =
    receive_from host options now e (get_peer e.sender r.trust) r

unfoldable pub decrypt_latest : Host → Receiver → Option String
decrypt_latest host receiver = elim receiver.latest_encrypted [
  | none ↦ none
  | some s ↦ host.decrypt s.encrypted
]
