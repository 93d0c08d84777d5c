-- ===== src/Agents/Attestations.antt =====
-- guardian-network/src/shared/attestation.ts: `verifyAttestation`.
use attested_capital.Base.{
  ℕ, ◌+◌, ◌*◌, leb, str_eq, not, String, Bool, false, Option, none, some, if◌then◌else◌,
}
use attested_capital.Agents.{
  RegistrationRequest, Attestation, Reply, success, failure, too_old, hash_mismatch,
  invalid_signature, bad_format,
}

-- What a guardian calls: JSON and base64 (`deserializeAttestation`), SHA-256 over the text of an
-- attestation with a secret, and the text of a registration as the payload of a proposal.
pub record Host : Type 0 where
  pub deserialize : String → Option Attestation
  pub digest : String → Attestation → String
  pub describe : RegistrationRequest → String
  -- `JSON.stringify({ teeInstanceId, codeHash, endpoint })`, and `JSON.parse`
  pub stringify : String → String → String → String
  pub parse : String → Option RegistrationRequest

pub record VerifyOptions : Type 0 where
  pub expected_code_hash : Option String
  pub max_age_seconds : Option ℕ
  pub signing_secret : Option String

abbrev pub max_age : ℕ → VerifyOptions
max_age seconds = record {
  expected_code_hash = none;
  max_age_seconds = some seconds;
  signing_secret = none;
}

-- `Math.floor((now - timestamp) / 1000) >= maxAgeSeconds`, also where the time is in the future.
unfoldable pub is_too_old : ℕ → Option ℕ → Attestation → Bool
is_too_old now none a = false
is_too_old now (some seconds) a = leb (a.timestamp + seconds * 1000) now

unfoldable pub is_other_code : Option String → Attestation → Bool
is_other_code none a = false
is_other_code (some hash) a = not (str_eq a.code_hash hash)

unfoldable pub secret_of : Option String → String
secret_of none = "dev-attestation-secret"
secret_of (some secret) = secret

unfoldable pub verify_attestation : Host → ℕ → VerifyOptions → Attestation → Reply
unfolding is_too_old is_other_code secret_of
verify_attestation host now options a =
    if is_too_old now options.max_age_seconds a
    then failure too_old
    else if is_other_code options.expected_code_hash a
    then failure hash_mismatch
    else if str_eq a.signature (host.digest (secret_of options.signing_secret) a)
    then success
    else failure invalid_signature

unfoldable pub verify_decoded : Host → ℕ → ℕ → Option Attestation → Reply
unfolding verify_attestation
verify_decoded host now seconds none = failure bad_format
verify_decoded host now seconds (some a) = verify_attestation host now (max_age seconds) a

-- An attestation that is not sent is not verified.
unfoldable pub verify_if_sent : Host → ℕ → ℕ → Option String → Reply
unfolding verify_decoded
verify_if_sent host now seconds none = success
verify_if_sent host now seconds (some encoded) =
    verify_decoded host now seconds (host.deserialize encoded)
