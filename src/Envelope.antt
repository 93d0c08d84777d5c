-- ===== src/Envelope.antt =====
-- guardian-network/src/shared/signed-envelope.ts: the envelopes of the messages between nodes, their
-- signature, their age and the nonce that makes each of them count once. Times are in milliseconds.
pub mod Nonces
pub mod Replay
pub mod Window
pub mod Once
pub mod Delivery
mod Examples
use attested_capital.Base.{
  ℕ, ◌+◌, ◌-◌, ◌==◌, ltb, not, str_eq, String, Bool, true, false, Option, none, some, if◌then◌else◌,
}
use Nonces.{Tracker, check}

pub record SignedEnvelope : Type 0 where
  pub version : ℕ
  pub sender : String
  pub timestamp : ℕ
  pub nonce : String
  pub action : String
  pub payload_hash : String
  pub payload : String
  pub signature : String

pub data Fault : Type 0 where
  unsupported_version too_old from_the_future duplicate_nonce hash_mismatch bad_signature : Fault

abbrev pub max_age_ms : ℕ
max_age_ms = 300_000

abbrev pub max_future_drift_ms : ℕ
max_future_drift_ms = 30_000

-- What the module calls of node:crypto and of the TEE signer, and the canonical text to sign.
pub record Crypto : Type 0 where
  pub hash : String → String
  pub canonical : String → ℕ → String → String → String → String
  pub sign : String → String
  -- The text, the signature and the public key of the sender.
  pub verify : String → String → String → Bool

-- `nonce` is the random one.
unfoldable pub create_envelope : Crypto → ℕ → String → String → String → String → SignedEnvelope
create_envelope c now nonce sender action payload =
    let payload_hash = c.hash payload in
    record {
      version = 1;
      sender = sender;
      timestamp = now;
      nonce = nonce;
      action = action;
      payload_hash = payload_hash;
      payload = payload;
      signature = c.sign (c.canonical sender now nonce action payload_hash);
    }

-- Steps 4 and 5: no fault if the hash and the signature are right.
unfoldable pub verify_content : Crypto → String → SignedEnvelope → Option Fault
verify_content c pubkey e =
    if not (str_eq (c.hash e.payload) e.payload_hash)
    then some hash_mismatch
    else if not (
        c.verify (c.canonical e.sender e.timestamp e.nonce e.action e.payload_hash) e.signature
          pubkey)
    then some bad_signature
    else none

-- Step 3 consumes the nonce, if there is a tracker.
unfoldable pub verify_nonce :
    Crypto → ℕ → String → SignedEnvelope → Option Tracker → Option Fault × Option Tracker
verify_nonce c max_size pubkey e none = (verify_content c pubkey e, none)
verify_nonce c max_size pubkey e (some t) =
    let r = check max_size e.nonce t in
    if r.0 then (verify_content c pubkey e, some r.1) else (some duplicate_nonce, some r.1)

-- Steps 1 and 2, on the version and the age.
unfoldable pub verify_window : ℕ → ℕ → SignedEnvelope → Option Fault
verify_window now max_age e =
    if not (e.version == 1)
    then some unsupported_version
    else if ltb (e.timestamp + max_age) now
    then some too_old
    else if ltb (now + max_future_drift_ms) e.timestamp
    then some from_the_future
    else none

-- No fault means `valid: true`.
unfoldable pub verify_envelope :
    Crypto → ℕ → ℕ → ℕ → String → SignedEnvelope → Option Tracker → Option Fault × Option Tracker
verify_envelope c max_size now max_age pubkey e tracker = elim (verify_window now max_age e) [
  | some fault ↦ (some fault, tracker)
  | none ↦ verify_nonce c max_size pubkey e tracker
]
