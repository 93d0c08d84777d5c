-- ===== src/Envelope/Delivery.antt =====
-- Which envelopes are valid, how often, and what an invalid one does.
use attested_capital.Base.{
  ℕ, ◌+◌, ◌≤◌, ◌<◌, ◌≡◌, ◌≢◌, ◌∙◌, refl, ap, ◌==◌, ltb, str_eq, str_eq_iff, String, Bool-cases,
  Option-cases, inl, inr, true, false, none, some, List, [], length, arith,
}
use attested_capital.Envelope.{
  SignedEnvelope, Crypto, Fault, duplicate_nonce, max_future_drift_ms, create_envelope,
  verify_content, verify_nonce, verify_window, verify_envelope,
}
use attested_capital.Envelope.Nonces.{Tracker, has, check}
use attested_capital.Envelope.Replay.{IsSynced, check_all}
use attested_capital.Envelope.Once.{check-only_once}

-- A fault of the window, or what the rest says.
verify_envelope-nonce :
    (c : Crypto) (max_size now max_age : ℕ) (pubkey : String) (e : SignedEnvelope) (t : Tracker)
    → verify_window now max_age e ≡ none
    → verify_envelope c max_size now max_age pubkey e (some t)
      ≡ verify_nonce c max_size pubkey e (some t)
unfolding verify_envelope
verify_envelope-nonce c max_size now max_age pubkey e t h = rw (verify_envelope, h) refl

verify_envelope-window :
    (c : Crypto) (max_size now max_age : ℕ) (pubkey : String) (e : SignedEnvelope) (t : Tracker)
    (fault : Fault)
    → verify_window now max_age e ≡ some fault
    → verify_envelope c max_size now max_age pubkey e (some t) ≡ (some fault, some t)
unfolding verify_envelope
verify_envelope-window c max_size now max_age pubkey e t fault h = rw (verify_envelope, h) refl

-- What the nonce step answers, by the tracker's answer.
verify_nonce-refused :
    (c : Crypto) (max_size : ℕ) (pubkey : String) (e : SignedEnvelope) (t u : Tracker)
    → check max_size e.nonce t ≡ (false, u)
    → verify_nonce c max_size pubkey e (some t) ≡ (some duplicate_nonce, some u)
unfolding verify_nonce
verify_nonce-refused c max_size pubkey e t u h = rw h refl

verify_nonce-passed :
    (c : Crypto) (max_size : ℕ) (pubkey : String) (e : SignedEnvelope) (t u : Tracker)
    → check max_size e.nonce t ≡ (true, u)
    → verify_nonce c max_size pubkey e (some t) ≡ (verify_content c pubkey e, some u)
unfolding verify_nonce
verify_nonce-passed c max_size pubkey e t u h = rw h refl

check-new :
    (max_size : ℕ) (n : String) (t : Tracker)
    → has n t.seen ≡ false
    → check max_size n t ≡ (true, (check max_size n t).1)
unfolding check
check-new max_size n t h = rw h refl

verify_window-passes :
    (sent now max_age : ℕ) (e : SignedEnvelope)
    → e.version ≡ 1
    → e.timestamp ≡ sent
    → now ≤ sent + max_age
    → sent ≤ now + max_future_drift_ms
    → verify_window now max_age e ≡ none
unfolding verify_window
verify_window-passes sent now max_age e v at young due =
    let known : (e.version == 1) ≡ true = ground arith in
    let not_old : ltb (e.timestamp + max_age) now ≡ false = ground arith in
    let not_ahead : ltb (now + max_future_drift_ms) e.timestamp ≡ false = ground arith in
    rw (known, not_old, not_ahead) refl

content_of_own :
    (c : Crypto) (sent : ℕ) (nonce sender action payload pubkey : String)
    → ((text : String) → c.verify text (c.sign text) pubkey ≡ true)
    → verify_content c pubkey (create_envelope c sent nonce sender action payload) ≡ none
unfolding verify_content create_envelope
content_of_own c sent nonce sender action payload pubkey signs =
    let own : str_eq (c.hash payload) (c.hash payload) ≡ true = (str_eq_iff _ _).1 refl in
    rw (own, signs _) refl

-- An envelope that its sender creates is valid for who has the sender's key, while it is not older
-- than allowed nor more than 30 seconds ahead, and its nonce is new; provided that the signer
-- verifies what it signed.
pub verify_envelope-create_envelope :
    (c : Crypto) (max_size sent now max_age : ℕ) (nonce sender action payload pubkey : String)
    (t : Tracker)
    → ((text : String) → c.verify text (c.sign text) pubkey ≡ true)
    → now ≤ sent + max_age
    → sent ≤ now + max_future_drift_ms
    → has nonce t.seen ≡ false
    → verify_envelope c max_size now max_age pubkey
        (create_envelope c sent nonce sender action payload)
        (some t)
      ≡ (none, some (check max_size nonce t).1)
unfolding create_envelope
verify_envelope-create_envelope c max_size sent now max_age nonce sender action payload pubkey t
      signs young due new =
    let e = create_envelope c sent nonce sender action payload in
    verify_envelope-nonce c max_size now max_age pubkey e t
      (verify_window-passes sent now max_age e refl refl young due)
    ∙ verify_nonce-passed c max_size pubkey e t _ (check-new max_size nonce t new)
    ∙ ap (λ o. (o, some (check max_size nonce t).1))
        (content_of_own c sent nonce sender action payload pubkey signs)

-- A valid envelope has passed the window, and its nonce is accepted.
valid-check :
    (c : Crypto) (max_size now max_age : ℕ) (pubkey : String) (e : SignedEnvelope) (t u : Tracker)
    → verify_envelope c max_size now max_age pubkey e (some t) ≡ (none, some u)
    → check max_size e.nonce t ≡ (true, u)
valid-check c max_size now max_age pubkey e t u h =
    elim (Option-cases (verify_window now max_age e)) [
      | inr (fault, w) ↦
          absurd (cc (verify_envelope-window c max_size now max_age pubkey e t fault w))
      | inl w ↦
          let rest = verify_envelope-nonce c max_size now max_age pubkey e t w in
          elim (Bool-cases (check max_size e.nonce t).0) [
            | inr old ↦ absurd (
                cc (
                  verify_nonce-refused c max_size pubkey e t (check max_size e.nonce t).1
                    (ap (λ b. (b, (check max_size e.nonce t).1)) old)))
            | inl new ↦
                let pass =
                  verify_nonce-passed c max_size pubkey e t (check max_size e.nonce t).1
                    (ap (λ b. (b, (check max_size e.nonce t).1)) new) in
                let left : (check max_size e.nonce t).1 ≡ u = cc in
                ap (λ b. (b, (check max_size e.nonce t).1)) new ∙ ap (λ x. (true, x)) left
          ]
    ]

-- An envelope that a tracker lets pass as valid is valid never again, with whatever key, age and
-- time, as long as fewer nonces than the tracker holds have come in between.
pub verify_envelope-only_once :
    (c : Crypto) (max_size now max_age later later_age : ℕ) (pubkey later_key : String)
    (e : SignedEnvelope) (t u : Tracker) (ns : List String)
    → IsSynced max_size t
    → verify_envelope c max_size now max_age pubkey e (some t) ≡ (none, some u)
    → length ns < max_size
    → (verify_envelope c max_size later later_age later_key e (some (check_all max_size ns u))).0
      ≢ none
verify_envelope-only_once c max_size now max_age later later_age pubkey later_key e t u ns s passed
      room =
    let at = valid-check c max_size now max_age pubkey e t u passed in
    let accepted : (check max_size e.nonce t).0 ≡ true = ap (λ p. p.0) at in
    let left : (check max_size e.nonce t).1 ≡ u = ap (λ p. p.1) at in
    let again : check max_size e.nonce (check_all max_size ns u)
        ≡ (false, check_all max_size ns u) =
      rw left at (check-only_once max_size e.nonce ns t s accepted room) in
    elim (Option-cases (verify_window later later_age e)) [
      | inr (fault, w) ↦
          rw (verify_envelope-window c max_size later later_age later_key e _ fault w) (λ q. cc)
      | inl w ↦
          rw
            (
              verify_envelope-nonce c max_size later later_age later_key e _ w,
              verify_nonce-refused c max_size later_key e _ _ again,
            )
            (λ q. cc)
    ]

-- The nonce is spent before the content is looked at: an envelope in the window with a new nonce,
-- however forged, makes every later one in the window with its nonce a duplicate, whoever signed
-- it.
pub verify_envelope-spends_nonce :
    (c : Crypto) (max_size now max_age later later_age : ℕ) (pubkey later_key : String)
    (e genuine : SignedEnvelope) (t : Tracker)
    → IsSynced max_size t
    → 0 < max_size
    → has e.nonce t.seen ≡ false
    → verify_window now max_age e ≡ none
    → verify_window later later_age genuine ≡ none
    → genuine.nonce ≡ e.nonce
    → (u : Tracker) × ((verify_envelope c max_size now max_age pubkey e (some t)).1 ≡ some u)
      × ((verify_envelope c max_size later later_age later_key genuine (some u)).0
          ≡ some duplicate_nonce)
verify_envelope-spends_nonce c max_size now max_age later later_age pubkey later_key e genuine t s
      some_room new opens later_opens same =
    let u = (check max_size e.nonce t).1 in
    let at = check-new max_size e.nonce t new in
    let again : check max_size e.nonce u ≡ (false, u) =
      check-only_once max_size e.nonce [] t s (ap (λ p. p.0) at) (omega arith) in
    let first = verify_envelope-nonce c max_size now max_age pubkey e t opens in
    let second = verify_envelope-nonce c max_size later later_age later_key genuine u later_opens in
    (
      u,
      ap (λ p. p.1) (first ∙ verify_nonce-passed c max_size pubkey e t u at),
      ap (λ p. p.0)
          (second
            ∙ verify_nonce-refused c max_size later_key genuine u u
                (ap (λ n. check max_size n u) same ∙ again)),
    )
