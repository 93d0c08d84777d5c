-- ===== src/Envelope/Examples.antt =====
-- The theorems on envelopes with a toy signer, which signs a text with itself.
use attested_capital.Base.{
  true, false, ◌≡◌, ◌≢◌, refl, str_eq, str_eq_iff, some, none, [], ◌∷◌, arith,
}
use attested_capital.Envelope.Window.{answers, promised, answers-refines}
use attested_capital.Envelope.{
  SignedEnvelope, Crypto, duplicate_nonce, create_envelope, verify_content, verify_nonce,
  verify_window, verify_envelope,
}
use attested_capital.Envelope.Nonces.{Tracker, new_tracker, has, add, evict, check}
use attested_capital.Envelope.Replay.{IsSynced, check_all}
use attested_capital.Envelope.Delivery.{
  verify_envelope-create_envelope, verify_envelope-only_once, verify_envelope-spends_nonce,
}

abbrev toy : Crypto
toy = record {
  hash = λ text. text;
  canonical = λ sender sent nonce action hash. sender;
  sign = λ text. text;
  verify = λ text signature pubkey. str_eq signature text;
}

abbrev hello : SignedEnvelope
hello = record {
  version = 1;
  sender = "g1";
  timestamp = 1000;
  nonce = "n1";
  action = "heartbeat";
  payload_hash = "{}";
  payload = "{}";
  signature = "g1";
}

abbrev forged : SignedEnvelope
forged = record hello { signature = "?" }

abbrev one_nonce : Tracker
one_nonce = record { seen = "n1" ∷ []; order = "n1" ∷ [] }

new_tracker-IsSynced : IsSynced 10 new_tracker
new_tracker-IsSynced = record { same = refl; unique = tt; small = omega arith }

verify_envelope-create_envelope_example :
    verify_envelope toy 10 1500 300_000 "key"
      (create_envelope toy 1000 "n1" "g1" "heartbeat" "{}")
      (some new_tracker)
    ≡ (none, some (check 10 "n1" new_tracker).1)
unfolding has
verify_envelope-create_envelope_example =
    verify_envelope-create_envelope toy 10 1000 1500 300_000 "n1" "g1" "heartbeat" "{}" "key"
      new_tracker (λ text. (str_eq_iff text text).1 refl) (omega arith) (omega arith) refl

passed : verify_envelope toy 10 1500 300_000 "key" hello (some new_tracker) ≡ (none, some one_nonce)
unfolding verify_envelope verify_window verify_nonce verify_content check has add evict
passed = refl

verify_envelope-only_once_example :
    (verify_envelope toy 10 1600 300_000 "key" hello (some (check_all 10 ("n2" ∷ []) one_nonce))).0
    ≢ none
verify_envelope-only_once_example =
    verify_envelope-only_once toy 10 1500 300_000 1600 300_000 "key" "key" hello new_tracker
      one_nonce ("n2" ∷ []) new_tracker-IsSynced passed (omega arith)

verify_envelope-spends_nonce_example :
    (u : Tracker) × ((verify_envelope toy 10 1500 300_000 "key" forged (some new_tracker)).1
      ≡ some u)
    × ((verify_envelope toy 10 1600 300_000 "key" hello (some u)).0 ≡ some duplicate_nonce)
unfolding verify_window has
verify_envelope-spends_nonce_example =
    verify_envelope-spends_nonce toy 10 1500 300_000 1600 300_000 "key" "key" forged hello
      new_tracker new_tracker-IsSynced (omega arith) refl refl refl refl

answers-refines_example :
    answers 2 new_tracker ("a" ∷ "b" ∷ "a" ∷ "c" ∷ "a" ∷ [])
    ≡ promised 2 [] ("a" ∷ "b" ∷ "a" ∷ "c" ∷ "a" ∷ [])
answers-refines_example = answers-refines 2 ("a" ∷ "b" ∷ "a" ∷ "c" ∷ "a" ∷ [])

-- A nonce that two others have pushed out is accepted again.
forgotten :
    promised 2 [] ("a" ∷ "b" ∷ "a" ∷ "c" ∷ "a" ∷ []) ≡ true ∷ true ∷ false ∷ true ∷ true ∷ []
unfolding has
forgotten = refl
