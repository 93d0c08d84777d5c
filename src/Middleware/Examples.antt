-- ===== src/Middleware/Examples.antt =====
-- A route for heartbeats: a request of a peer, one of a stranger, and a replay.
use attested_capital.Base.{true, false, ◌≡◌, refl, str_eq, none, some, [], ◌∷◌, String}
use attested_capital.Envelope.{
  SignedEnvelope, Crypto, duplicate_nonce, verify_content, verify_nonce, verify_window,
  verify_envelope,
}
use attested_capital.Envelope.Nonces.{new_tracker, has, add, evict, check}
use attested_capital.Agents.TrustStore.{Trust, TrustedPeer, get_peer}
use attested_capital.Middleware.{
  Body, enveloped, plain, info_of, Request, next, refused, unexpected_action, verification_failed,
  SignedMiddlewareOptions, after_verification, verify_sender, handle, signed_middleware,
  require_action, then_require,
}
use attested_capital.Middleware.Guarded.{
  IsVerified, IsInfoOf, then_require-verifies, then_require-unknown,
}

abbrev toy : Crypto
toy = record {
  hash = λ text. text;
  canonical = λ sender sent nonce action hash. sender;
  sign = λ text. text;
  verify = λ text signature pubkey. str_eq signature pubkey;
}

abbrev strict : SignedMiddlewareOptions String
strict = record {
  crypto = toy;
  nonce_cache_size = 10;
  max_age = 300_000;
  parse = λ text. some text;
  require_signed = true;
}

abbrev lax : SignedMiddlewareOptions String
lax = record strict { require_signed = false }

abbrev guardian_one : TrustedPeer
guardian_one = record {
  id = "g1";
  ed25519_pubkey = "key1";
  x25519_pubkey = "x1";
  attested_at = 0;
  last_verified = 0;
  attestation_quote = none;
  endpoint = none;
  is_sentry = false;
}

abbrev trust : Trust
trust = record { peers = guardian_one ∷ []; nonces = new_tracker }

abbrev beat : SignedEnvelope
beat = record {
  version = 1;
  sender = "g1";
  timestamp = 1000;
  nonce = "n1";
  action = "heartbeat";
  payload_hash = "{}";
  payload = "{}";
  signature = "key1";
}

abbrev from_stranger : SignedEnvelope
from_stranger = record beat { sender = "nobody"; action = "shutdown"; signature = "forged" }

abbrev request : SignedEnvelope → Request String
request e = record { body = enveloped e; verified_envelope = none }

abbrev accepted : Request String
accepted = record { body = plain "{}"; verified_envelope = some (info_of beat "{}") }

passes :
    then_require "heartbeat" (signed_middleware strict 1500 (request beat) trust).0 ≡ next accepted
unfolding signed_middleware handle verify_sender after_verification verify_envelope verify_window
    verify_nonce verify_content check has add evict require_action get_peer
passes = refl

replayed :
    (signed_middleware strict 1600
      (request beat)
      (signed_middleware strict 1500 (request beat) trust).1).0
    ≡ refused (verification_failed duplicate_nonce)
unfolding signed_middleware handle verify_sender after_verification verify_envelope verify_window
    verify_nonce verify_content check has add evict get_peer
replayed = refl

other_route :
    then_require "shutdown" (signed_middleware strict 1500 (request beat) trust).0
    ≡ refused (unexpected_action "shutdown" "heartbeat")
unfolding signed_middleware handle verify_sender after_verification verify_envelope verify_window
    verify_nonce verify_content check has add evict require_action get_peer
other_route = refl

then_require-verifies_example :
    (e : SignedEnvelope) × ◌≡◌ {A = Body String} (enveloped beat) (enveloped e)
    × IsVerified strict 1500 e trust
    × (e.action ≡ "heartbeat")
    × IsInfoOf e accepted
then_require-verifies_example =
    then_require-verifies strict 1500 "heartbeat" (request beat) accepted trust refl passes

stranger_passes :
    then_require "heartbeat" (signed_middleware lax 1500 (request from_stranger) trust).0
    ≡ next (record { body = plain "{}"; verified_envelope = none })
unfolding get_peer
stranger_passes =
    then_require-unknown lax 1500 "heartbeat" (request from_stranger) from_stranger "{}" trust refl
      refl refl refl refl refl
