-- ===== src/Middleware/Guarded.antt =====
-- guardian-network/src/api/signed-middleware.ts: what reaches a handler.
use attested_capital.Base.{
  ℕ, str_eq, str_eq_iff, String, true, false, Bool-cases, inl, inr, ◌⊎◌, Option, none, some, ◌≡◌,
  ◌≢◌, refl, sym, ap, ◌∙◌,
}
use attested_capital.Envelope.{SignedEnvelope, Fault, verify_envelope}
use attested_capital.Agents.TrustStore.{Trust, TrustedPeer, get_peer}
use attested_capital.Middleware.{
  Body, enveloped, refused, throws, unknown_sender, unexpected_action, VerifiedEnvelopeInfo, plain,
  info_of, Request, Step, next, SignedMiddlewareOptions, looks_signed, attached, after_verification,
  verify_sender, unsigned, handle, signed_middleware, check_action, require_action, then_require,
}

module _ {A : Type 0} where
  Body-cases :
      (b : Body A) → ((e : SignedEnvelope) × (b ≡ enveloped e)) ⊎ ((value : A) × (b ≡ plain value))
  Body-cases (enveloped e) = inl (e, refl)
  Body-cases (plain value) = inr (value, refl)

  -- The information that is attached to a request is that of an envelope.
  abbrev pub IsInfoOf : SignedEnvelope → Request A → Type 0
  IsInfoOf e req = (payload : A) × (req.verified_envelope ≡ some (info_of e payload))

  check_action-next :
      (action : String) (req passed : Request A) (info : Option (VerifiedEnvelopeInfo A))
      → check_action action req info ≡ next passed
      → req ≡ passed
  check_action-next action req passed none h = cc
  check_action-next action req passed (some info) h =
      elim (Bool-cases (str_eq info.action action)) [
        | inl same ↦ let went : next req ≡ next passed = rw same at h in cc
        | inr other ↦
            let stopped : refused (unexpected_action action info.action) ≡ next passed =
              rw other at h in
            cc
      ]

  check_action-same :
      (action : String) (req passed : Request A) (info : VerifiedEnvelopeInfo A)
      → check_action action req (some info) ≡ next passed
      → info.action ≡ action
  check_action-same action req passed info h = elim (Bool-cases (str_eq info.action action)) [
    | inl same ↦ (str_eq_iff info.action action).0 same
    | inr other ↦
        let stopped : refused (unexpected_action action info.action) ≡ next passed =
          rw other at h in
        cc
  ]

  require_action-same :
      (action : String) (req passed : Request A) (info : VerifiedEnvelopeInfo A)
      → req.verified_envelope ≡ some info
      → require_action action req ≡ next passed
      → (info.action ≡ action) × (req ≡ passed)
  unfolding require_action
  require_action-same action req passed info found h = (
    check_action-same action req passed info (ap (check_action action req) (sym found) ∙ h),
    check_action-next action req passed req.verified_envelope h,
  )

  then_require-next :
      (action : String) (s : Step A) (passed : Request A)
      → then_require action s ≡ next passed
      → (req : Request A) × (s ≡ next req) × (require_action action req ≡ next passed)
  then_require-next action (next req) passed h = (req, refl, h)
  then_require-next action (refused why) passed h = cc
  then_require-next action throws passed h = cc

module _ {A : Type 0} (options : SignedMiddlewareOptions A) where
  -- The envelope passes the checks against the key of the peer that sent it.
  abbrev pub IsValidFrom : ℕ → SignedEnvelope → TrustedPeer → Trust → Type 0
  IsValidFrom now e peer t =
      (verify_envelope options.crypto options.nonce_cache_size now options.max_age
        peer.ed25519_pubkey e (some t.nonces)).0
      ≡ none

  abbrev pub IsVerified : ℕ → SignedEnvelope → Trust → Type 0
  IsVerified now e t =
      (peer : TrustedPeer) × (get_peer e.sender t ≡ some peer) × IsValidFrom now e peer t

  attached-info :
      (e : SignedEnvelope) (payload : Option A) (req : Request A)
      → attached options e payload ≡ next req
      → IsInfoOf e req
  attached-info e none req h = cc
  attached-info e (some payload) req h = (
    payload,
    let same : record { body = plain payload; verified_envelope = some (info_of e payload) } ≡ req =
          cc in
        sym (ap (λ r. r.verified_envelope) same),
  )

  after_verification-valid :
      (e : SignedEnvelope) (r : Option Fault) (passed : Request A)
      → after_verification options e r ≡ next passed
      → (r ≡ none) × IsInfoOf e passed
  unfolding after_verification
  after_verification-valid e (some fault) passed h = cc
  after_verification-valid e none passed h =
      (refl, attached-info e (options.parse e.payload) passed h)

  verify_sender-verifies :
      (now : ℕ) (req passed : Request A) (e : SignedEnvelope) (found : Option TrustedPeer)
      (t : Trust)
      → options.require_signed ≡ true
      → (verify_sender options now req e found t).0 ≡ next passed
      → (peer : TrustedPeer) × (found ≡ some peer) × IsValidFrom now e peer t × IsInfoOf e passed
  unfolding verify_sender
  verify_sender-verifies now req passed e none t strict h =
      let refusal : (verify_sender options now req e none t).0 ≡ refused (unknown_sender e.sender) =
        rw strict refl in
      cc
  verify_sender-verifies now req passed e (some peer) t strict h =
      let (valid, info) = after_verification-valid e _ passed h in (peer, refl, valid, info)

  unsigned-refused :
      (req passed : Request A) → options.require_signed ≡ true → unsigned options req ≢ next passed
  unfolding unsigned
  unsigned-refused req passed strict = rw strict (λ h. cc)

  handle-verifies :
      (now : ℕ) (req passed : Request A) (body : Body A) (t : Trust)
      → options.require_signed ≡ true
      → (handle options now req body t).0 ≡ next passed
      → (e : SignedEnvelope) × (body ≡ enveloped e) × IsVerified now e t × IsInfoOf e passed
  unfolding handle
  handle-verifies now req passed (plain value) t strict h =
      absurd (unsigned-refused req passed strict h)
  handle-verifies now req passed (enveloped e) t strict h = elim (Bool-cases (looks_signed e)) [
    | inr not_so ↦ absurd (unsigned-refused req passed strict (rw not_so at h))
    | inl is ↦
        let (peer, known, valid, info) =
          verify_sender-verifies now req passed e (get_peer e.sender t) t strict (rw is at h) in
        (e, refl, (peer, known, valid), info)
  ]

  signed_middleware-verifies :
      (now : ℕ) (req passed : Request A) (t : Trust)
      → options.require_signed ≡ true
      → (signed_middleware options now req t).0 ≡ next passed
      → (e : SignedEnvelope) × (req.body ≡ enveloped e) × IsVerified now e t × IsInfoOf e passed
  unfolding signed_middleware
  signed_middleware-verifies now req passed t strict h =
      handle-verifies now req passed req.body t strict h

  -- With `requireSigned`, a request that the middleware and `requireAction` let through has an
  -- envelope that a peer of the trust store sent, that passed the checks against that peer's key,
  -- and whose action is the one the route asks for; the request carries the envelope.
  pub then_require-verifies :
      (now : ℕ) (action : String) (req passed : Request A) (t : Trust)
      → options.require_signed ≡ true
      → then_require action (signed_middleware options now req t).0 ≡ next passed
      → (e : SignedEnvelope) × (req.body ≡ enveloped e)
        × IsVerified now e t
        × (e.action ≡ action)
        × IsInfoOf e passed
  then_require-verifies now action req passed t strict h =
      let (between, went, asked) = then_require-next action _ passed h in
      let (e, body, verified, (payload, info)) =
        signed_middleware-verifies now req between t strict went in
      let (same, on) = require_action-same action between passed (info_of e payload) info asked in
      (e, body, verified, same, (payload, ap (λ r. r.verified_envelope) (sym on) ∙ info))

  -- Without `requireSigned`, an envelope whose sender is not in the trust store passes both,
  -- whatever its action and its signature are and whatever action the route asks for.
  pub then_require-unknown :
      (now : ℕ) (action : String) (req : Request A) (e : SignedEnvelope) (payload : A) (t : Trust)
      → options.require_signed ≡ false
      → req.body ≡ enveloped e
      → req.verified_envelope ≡ none
      → looks_signed e ≡ true
      → get_peer e.sender t ≡ none
      → options.parse e.payload ≡ some payload
      → then_require action (signed_middleware options now req t).0
        ≡ next (record { body = plain payload; verified_envelope = none })
  unfolding signed_middleware handle verify_sender require_action
  then_require-unknown now action req e payload t lax body fresh signed unknown parsed =
      rw (body, signed, unknown, lax, parsed, fresh) refl
