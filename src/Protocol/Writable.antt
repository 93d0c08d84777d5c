-- ===== src/Protocol/Writable.antt =====
-- guardian-network/src/shared/telegram-protocol.ts: the messages that can be told from their text.
use attested_capital.Base.{Bool, true, false, some, ◌≡◌, refl}
use attested_capital.Protocol.{
  Message, agent_announce, guardian_announce, discover_request, discover_response, proposal_new,
  proposal_result, heartbeat_status, attestation_request, attestation_verified,
  attestation_rejected, vault_key_sent, vault_key_received, db_sync_sent, db_sync_received,
  db_sync_rejected, recovery_request, recovery_served, trust_peer_added, trust_peer_removed,
  bool_text, is_true, status_text, status_of, fields,
}
use attested_capital.Protocol.Texts.{Text, is_plain}
use attested_capital.Protocol.Numbers.{Number, natural, other, number_of, number_text, Percent}
use attested_capital.Protocol.Lookup.{IsWritten}
use attested_capital.Protocol.Decimals.{
  is_canonical, nat_text-plain, number_of-number_text, percent_text-plain,
}

abbrev pub IsPlain : Text → Type 0
IsPlain t = is_plain t ≡ true

abbrev pub IsNatural : Number → Type 0
IsNatural (natural n) = Unit
IsNatural (other t) = ⊥

abbrev pub IsCanonical : Percent → Type 0
IsCanonical p = is_canonical p ≡ true

-- The texts of the message have no white space and are not empty, its numbers are naturals, its
-- percentages in their shortest form.
abbrev pub IsWritable : Message → Type 0
IsWritable (agent_announce a b c) = IsPlain a × IsPlain b × IsPlain c
IsWritable (guardian_announce a b c) = IsPlain a × IsPlain b
IsWritable discover_request = Unit
IsWritable (discover_response a b c) = IsPlain a × IsPlain b
IsWritable (proposal_new a b c d) = IsPlain a × IsPlain b × IsCanonical c × IsPlain d
IsWritable (proposal_result a b c) = IsPlain a × IsCanonical c
IsWritable (heartbeat_status a b) = IsNatural b
IsWritable (attestation_request a b) = IsPlain a × IsPlain b
IsWritable (attestation_verified a b c) = IsPlain a × IsPlain b
IsWritable (attestation_rejected a b) = IsPlain a × IsPlain b
IsWritable (vault_key_sent a) = IsPlain a
IsWritable (vault_key_received a) = IsPlain a
IsWritable (db_sync_sent a b c) = IsNatural a × IsNatural b × IsNatural c
IsWritable (db_sync_received a b) = IsPlain a × IsNatural b
IsWritable (db_sync_rejected a b) = IsPlain a × IsPlain b
IsWritable (recovery_request a) = IsPlain a
IsWritable (recovery_served a b) = IsPlain a × IsNatural b
IsWritable (trust_peer_added a b) = IsPlain a
IsWritable (trust_peer_removed a) = IsPlain a

pub bool_text-plain : (b : Bool) → is_plain (bool_text b) ≡ true
bool_text-plain true = refl
bool_text-plain false = refl

pub is_true-bool_text : (b : Bool) → is_true (bool_text b) ≡ b
is_true-bool_text true = refl
is_true-bool_text false = refl

pub number_text-plain : (n : Number) → IsNatural n → is_plain (number_text n) ≡ true
unfolding number_text
number_text-plain (natural n) h = nat_text-plain n
number_text-plain (other t) h = elim h [ ]

pub number_of-text : (n : Number) → IsNatural n → number_of (number_text n) ≡ n
number_of-text (natural n) h = number_of-number_text n
number_of-text (other t) h = elim h [ ]

pub status_text-plain : (b : Bool) → is_plain (status_text b) ≡ true
status_text-plain true = refl
status_text-plain false = refl

pub status_of-status_text : (b : Bool) → status_of (status_text b) ≡ some b
status_of-status_text true = refl
status_of-status_text false = refl

pub fields-IsWritten : (m : Message) → IsWritable m → IsWritten (fields m)
fields-IsWritten (agent_announce a b c) h = (refl, h.0, (refl, h.1, (refl, h.2, tt)))
fields-IsWritten (guardian_announce a b c) h =
    (refl, h.0, (refl, h.1, (refl, (bool_text-plain c), tt)))
fields-IsWritten discover_request h = tt
fields-IsWritten (discover_response a b c) h =
    (refl, h.0, (refl, h.1, (refl, (bool_text-plain c), tt)))
fields-IsWritten (proposal_new a b c d) h =
    (refl, h.0, (refl, h.1, (refl, (percent_text-plain c h.2), (refl, h.3, tt))))
fields-IsWritten (proposal_result a b c) h =
    (refl, h.0, (refl, (status_text-plain b), (refl, (percent_text-plain c h.1), tt)))
fields-IsWritten (heartbeat_status a b) h =
    (refl, (bool_text-plain a), (refl, (number_text-plain b h), tt))
fields-IsWritten (attestation_request a b) h = (refl, h.0, (refl, h.1, tt))
fields-IsWritten (attestation_verified a b c) h =
    (refl, h.0, (refl, h.1, (refl, (bool_text-plain c), tt)))
fields-IsWritten (attestation_rejected a b) h = (refl, h.0, (refl, h.1, tt))
fields-IsWritten (vault_key_sent a) h = (refl, h, tt)
fields-IsWritten (vault_key_received a) h = (refl, h, tt)
fields-IsWritten (db_sync_sent a b c) h = (
  refl,
  (number_text-plain a h.0),
  (refl, (number_text-plain b h.1), (refl, (number_text-plain c h.2), tt)),
)
fields-IsWritten (db_sync_received a b) h = (refl, h.0, (refl, (number_text-plain b h.1), tt))
fields-IsWritten (db_sync_rejected a b) h = (refl, h.0, (refl, h.1, tt))
fields-IsWritten (recovery_request a) h = (refl, h, tt)
fields-IsWritten (recovery_served a b) h = (refl, h.0, (refl, (number_text-plain b h.1), tt))
fields-IsWritten (trust_peer_added a b) h = (refl, h, (refl, (bool_text-plain b), tt))
fields-IsWritten (trust_peer_removed a) h = (refl, h, tt)
