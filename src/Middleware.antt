-- ===== src/Middleware.antt =====
-- guardian-network/src/api/signed-middleware.ts: what the HTTP API of a guardian does with a signed
-- request before its handler sees it, on top of Envelope and Agents.TrustStore.
pub mod Guarded
mod Examples
use attested_capital.Base.{
  ℕ, ◌==◌, str_eq, not, ◌&&◌, String, Bool, true, false, Option, none, some, if◌then◌else◌,
}
use attested_capital.Envelope.{SignedEnvelope, Fault, Crypto, verify_envelope}
use attested_capital.Envelope.Nonces.{Tracker}
use attested_capital.Agents.TrustStore.{Trust, TrustedPeer, get_peer}

-- The JSON values of the handlers are a parameter. A body has the fields of an envelope, or it is
-- some other value.
pub data Body (A : Type 0) : Type 0 where
  enveloped : SignedEnvelope → Body A
  plain : A → Body A

pub record VerifiedEnvelopeInfo (A : Type 0) : Type 0 where
  pub sender : String
  pub action : String
  pub timestamp : ℕ
  pub payload : A
  pub envelope : SignedEnvelope

pub record Request (A : Type 0) : Type 0 where
  pub body : Body A
  pub verified_envelope : Option (VerifiedEnvelopeInfo A)

pub data Denial : Type 0 where
  unknown_sender : String → Denial
  verification_failed : Fault → Denial
  envelope_required : Denial
  unexpected_action : String → String → Denial

-- `next` goes on to the next handler, and `throws` is the SyntaxError of `JSON.parse`.
pub data Step (A : Type 0) : Type 0 where
  next : Request A → Step A
  refused : Denial → Step A
  throws : Step A

-- The options, with what the module calls: `parse` is `parsePayload`, `none` where it throws.
pub record SignedMiddlewareOptions (A : Type 0) : Type 0 where
  pub crypto : Crypto
  pub nonce_cache_size : ℕ
  pub max_age : ℕ
  pub parse : String → Option A
  pub require_signed : Bool

-- `body.version === 1 && body.signature`
abbrev pub looks_signed : SignedEnvelope → Bool
looks_signed e = e.version == 1 && not (str_eq e.signature "")

-- The nonces of the store are those of its tracker.
abbrev pub tracked : Option Tracker → Trust → Trust
tracked none t = t
tracked (some nonces) t = record t { nonces = nonces }

abbrev pub info_of : {A : Type 0} → SignedEnvelope → A → VerifiedEnvelopeInfo A
info_of e payload = record {
  sender = e.sender;
  action = e.action;
  timestamp = e.timestamp;
  payload = payload;
  envelope = e;
}

module _ {A : Type 0} (options : SignedMiddlewareOptions A) where
  abbrev pub body_only : Request A → Option A → Step A
  body_only req none = throws
  body_only req (some payload) = next (record req { body = plain payload })

  abbrev pub attached : SignedEnvelope → Option A → Step A
  attached e none = throws
  attached e (some payload) =
      next (record { body = plain payload; verified_envelope = some (info_of e payload) })

  unfoldable pub after_verification : SignedEnvelope → Option Fault → Step A
  after_verification e (some fault) = refused (verification_failed fault)
  after_verification e none = attached e (options.parse e.payload)

  unfoldable pub verify_sender :
      ℕ → Request A → SignedEnvelope → Option TrustedPeer → Trust → Step A × Trust
  unfolding after_verification
  verify_sender now req e none t = (
    if options.require_signed
        then refused (unknown_sender e.sender)
        else body_only req (options.parse e.payload),
    t,
  )
  verify_sender now req e (some peer) t =
      let r =
        verify_envelope options.crypto options.nonce_cache_size now options.max_age
          peer.ed25519_pubkey e (some t.nonces) in
      (after_verification e r.0, tracked r.1 t)

  unfoldable pub unsigned : Request A → Step A
  unsigned req = if options.require_signed then refused envelope_required else next req

  unfoldable pub handle : ℕ → Request A → Body A → Trust → Step A × Trust
  unfolding verify_sender unsigned
  handle now req (plain value) t = (unsigned req, t)
  handle now req (enveloped e) t =
      if looks_signed e then verify_sender now req e (get_peer e.sender t) t else (unsigned req, t)

  -- The handler that `createSignedMiddleware` returns.
  unfoldable pub signed_middleware : ℕ → Request A → Trust → Step A × Trust
  unfolding handle
  signed_middleware now req t = handle now req req.body t

module _ {A : Type 0} where
  abbrev pub check_action : String → Request A → Option (VerifiedEnvelopeInfo A) → Step A
  check_action action req none = next req
  check_action action req (some info) =
      if str_eq info.action action then next req else refused (unexpected_action action info.action)

  -- The handler that `requireAction` returns.
  unfoldable pub require_action : String → Request A → Step A
  require_action action req = check_action action req req.verified_envelope

  -- The two in a row, as a route composes them.
  abbrev pub then_require : String → Step A → Step A
  then_require action (next req) = require_action action req
  then_require action (refused why) = refused why
  then_require action throws = throws
