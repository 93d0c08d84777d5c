-- ===== src/DbSync/Examples.antt =====
-- Snapshots with a toy host: nothing is encrypted, and a payload is as long as its number.
use attested_capital.Base.{
  ℕ, zero, suc, ◌≡◌, refl, ap, str_eq, String, true, false, some, none, [], ◌∷◌, arith,
}
use attested_capital.Envelope.Nonces.{new_tracker}
use attested_capital.Agents.TrustStore.{TrustedPeer}
use attested_capital.DbSync.{Encrypted, Host, Replica, Options, receive_snapshot, create_snapshot}
use attested_capital.DbSync.Replicas.{Advances, receive_snapshot-Advances}
use attested_capital.DbSync.Restart.{Sending, relay, relay-ignored}

abbrev marks : ℕ → String
marks zero = String.[]
marks (suc n) = String.◌∷◌ "x" (marks n)

abbrev count : String → ℕ
count String.[] = 0
count (String.◌∷◌ c s) = suc (count s)

count-marks : (n : ℕ) → count (marks n) ≡ n
count-marks zero = refl
count-marks (suc n) = ap suc (count-marks n)

abbrev plain : String → Encrypted
plain text = record { ciphertext = text; iv = ""; auth_tag = "" }

abbrev toy : Host
toy = record {
  crypto = record {
    hash = λ text. text;
    canonical = λ sender sent nonce action hash. sender;
    sign = λ text. text;
    verify = λ text signature pubkey. str_eq signature text;
  };
  encrypt = plain;
  decrypt = λ e. some e.ciphertext;
  checksum = λ text. text;
  stringify = λ s. marks s.sequence_num;
  parse = λ text. record {
    encrypted = plain "db";
    sequence_num = count text;
    checksum = "db";
    attestation_quote = none;
  };
  attest = λ quote pubkey. true;
}

abbrev agent : TrustedPeer
agent = record {
  id = "agent";
  ed25519_pubkey = "key";
  x25519_pubkey = "key";
  attested_at = 0;
  last_verified = 0;
  attestation_quote = none;
  endpoint = none;
  is_sentry = false;
}

abbrev lenient : Options
lenient = record {
  nonce_cache_size = 10;
  max_age = 300000;
  require_attestation = false;
  decrypt_and_verify = true;
}

-- A guardian that has got forty snapshots.
abbrev replica : Replica
replica = record {
  trust = record { peers = agent ∷ []; nonces = new_tracker };
  receiver = record { latest_sequence = 40; latest_encrypted = none };
}

abbrev first_sending : Sending
first_sending = record { sent_at = 1000; received_at = 1100; nonce = "n1"; db = "db" }

receive_snapshot-Advances_example :
    Advances
      (toy.parse (create_snapshot toy "agent" 1000 "n1" "db" 40).0.payload)
      replica.receiver
      (receive_snapshot toy lenient 1100 (create_snapshot toy "agent" 1000 "n1" "db" 40).0 replica)
receive_snapshot-Advances_example =
    receive_snapshot-Advances toy lenient 1100 (create_snapshot toy "agent" 1000 "n1" "db" 40).0
      replica

relay-ignored_example :
    (relay toy lenient "agent" (first_sending ∷ []) 0 replica).receiver ≡ replica.receiver
relay-ignored_example =
    relay-ignored toy lenient "agent" (λ s. count-marks s.sequence_num) (first_sending ∷ []) 0
      replica (omega arith)
