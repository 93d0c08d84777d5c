-- ===== src/Protocol/RoundTrip.antt =====
-- guardian-network/src/shared/telegram-protocol.ts: what is formatted is parsed to the message that
-- it was.
use attested_capital.Base.{Bool, some, List, [], ◌∷◌, ◌++◌, ◌≡◌, refl, ap, ◌∙◌, arith}
use attested_capital.Protocol.{
  Message, agent_announce, guardian_announce, discover_request, discover_response, proposal_new,
  proposal_result, heartbeat_status, attestation_request, attestation_verified,
  attestation_rejected, vault_key_sent, vault_key_received, db_sync_sent, db_sync_received,
  db_sync_rejected, recovery_request, recovery_served, trust_peer_added, trust_peer_removed,
  bool_text, is_true, status_text, fields, tag, format,
}
use attested_capital.Protocol.Texts.{Text, trim, trim_start, trim_end}
use attested_capital.Protocol.Numbers.{number_of, number_text, Percent, percent_text}
use attested_capital.Protocol.Fields.{field, render}
use attested_capital.Protocol.Parse.{
  read_proposal_new, read_proposal_result, read_tagged, readers, parse_protocol_message,
}
use attested_capital.Protocol.Lookup.{IsWritten, extract_field-render, extract_percent_field-render}
use attested_capital.Protocol.Decimals.{read_percent-percent_text}
use attested_capital.Protocol.Trim.{trim_end-render}
use attested_capital.Protocol.Readers.{bind_some, one_field, two_fields, three_fields}
use attested_capital.Protocol.Writable.{
  IsWritable, bool_text-plain, is_true-bool_text, number_text-plain, number_of-text,
  status_text-plain, status_of-status_text, fields-IsWritten,
}

read_proposal_new-fields :
    (a b : Text) (c : Percent) (d : Text)
    → IsWritable (proposal_new a b c d)
    → read_proposal_new (render (fields (proposal_new a b c d))) ≡ some (proposal_new a b c d)
read_proposal_new-fields a b c d h =
    bind_some _ _ a (extract_field-render "id" [] a ts refl w refl h.0)
    ∙ bind_some _ _ b (extract_field-render "type" (i ∷ []) b (p ∷ l ∷ []) refl w refl h.1)
    ∙ bind_some _ _ c (
        extract_percent_field-render "threshold" (i ∷ t ∷ []) c (percent_text c) (l ∷ []) refl w
          refl (read_percent-percent_text c (render (l ∷ [])) h.2))
    ∙ bind_some _ _ d (extract_field-render "deadline" (i ∷ t ∷ p ∷ []) d [] refl w refl h.3)
  where
    i : Text × Text
    i = field "id" a

    t : Text × Text
    t = field "type" b

    p : Text × Text
    p = field "threshold" (percent_text c)

    l : Text × Text
    l = field "deadline" d

    ts : List (Text × Text)
    ts = t ∷ p ∷ l ∷ []

    w : IsWritten (fields (proposal_new a b c d))
    w = fields-IsWritten (proposal_new a b c d) h

read_proposal_result-fields :
    (a : Text) (b : Bool) (c : Percent)
    → IsWritable (proposal_result a b c)
    → read_proposal_result (render (fields (proposal_result a b c))) ≡ some (proposal_result a b c)
read_proposal_result-fields a b c h =
    bind_some _ _ a (extract_field-render "id" [] a (s ∷ p ∷ []) refl w refl h.0)
    ∙ bind_some _ _ (status_text b) (
        extract_field-render "status" (i ∷ []) (status_text b) (p ∷ []) refl w refl
          (status_text-plain b))
    ∙ bind_some _ _ c (
        extract_percent_field-render "approval" (i ∷ s ∷ []) c (percent_text c) [] refl w refl
          (read_percent-percent_text c [] h.1))
    ∙ bind_some _ _ b (status_of-status_text b)
  where
    i : Text × Text
    i = field "id" a

    s : Text × Text
    s = field "status" (status_text b)

    p : Text × Text
    p = field "approval" (percent_text c)

    w : IsWritten (fields (proposal_result a b c))
    w = fields-IsWritten (proposal_result a b c) h

read_tagged-format : (m : Message) → IsWritable m → read_tagged readers (format m) ≡ some m
unfolding format
read_tagged-format (agent_announce a b c) h =
    three_fields (λ x y z. some (agent_announce x y z)) "endpoint" "teeId" "codeHash" a b c
      (refl, refl, refl, refl, refl, refl) h.0 h.1 h.2
read_tagged-format (guardian_announce a b c) h =
    three_fields (λ x y z. some (guardian_announce x y (is_true z))) "address" "endpoint" "sentry" a
      b (bool_text c) (refl, refl, refl, refl, refl, refl) h.0 h.1 (bool_text-plain c)
    ∙ ap (λ x. some (guardian_announce a b x)) (is_true-bool_text c)
read_tagged-format discover_request h = refl
read_tagged-format (discover_response a b c) h =
    three_fields (λ x y z. some (discover_response x y (is_true z))) "address" "endpoint" "sentry" a
      b (bool_text c) (refl, refl, refl, refl, refl, refl) h.0 h.1 (bool_text-plain c)
    ∙ ap (λ x. some (discover_response a b x)) (is_true-bool_text c)
read_tagged-format (proposal_new a b c d) h = read_proposal_new-fields a b c d h
read_tagged-format (proposal_result a b c) h = read_proposal_result-fields a b c h
read_tagged-format (heartbeat_status a b) h =
    two_fields (λ x y. some (heartbeat_status (is_true x) (number_of y))) "active" "uptime"
      (bool_text a) (number_text b) (refl, refl, refl) (bool_text-plain a) (number_text-plain b h)
    ∙ ap (λ x. some (heartbeat_status x (number_of (number_text b)))) (is_true-bool_text a)
    ∙ ap (λ x. some (heartbeat_status a x)) (number_of-text b h)
read_tagged-format (attestation_request a b) h =
    two_fields (λ x y. some (attestation_request x y)) "peerId" "pubkey" a b (refl, refl, refl) h.0
      h.1
read_tagged-format (attestation_verified a b c) h =
    three_fields (λ x y z. some (attestation_verified x y (is_true z))) "peerId" "pubkey" "sentry" a
      b (bool_text c) (refl, refl, refl, refl, refl, refl) h.0 h.1 (bool_text-plain c)
    ∙ ap (λ x. some (attestation_verified a b x)) (is_true-bool_text c)
read_tagged-format (attestation_rejected a b) h =
    two_fields (λ x y. some (attestation_rejected x y)) "peerId" "reason" a b (refl, refl, refl) h.0
      h.1
read_tagged-format (vault_key_sent a) h =
    one_field (λ x. some (vault_key_sent x)) "toPeerId" a refl h
read_tagged-format (vault_key_received a) h =
    one_field (λ x. some (vault_key_received x)) "fromPeerId" a refl h
read_tagged-format (db_sync_sent a b c) h =
    three_fields (λ x y z. some (db_sync_sent (number_of x) (number_of y) (number_of z))) "seq"
      "peers" "sizeKB" (number_text a) (number_text b) (number_text c)
      (refl, refl, refl, refl, refl, refl) (number_text-plain a h.0) (number_text-plain b h.1)
      (number_text-plain c h.2)
    ∙ ap (λ x. some (db_sync_sent x (number_of (number_text b)) (number_of (number_text c))))
        (number_of-text a h.0)
    ∙ ap (λ x. some (db_sync_sent a x (number_of (number_text c)))) (number_of-text b h.1)
    ∙ ap (λ x. some (db_sync_sent a b x)) (number_of-text c h.2)
read_tagged-format (db_sync_received a b) h =
    two_fields (λ x y. some (db_sync_received x (number_of y))) "fromPeerId" "seq" a (number_text b)
      (refl, refl, refl) h.0 (number_text-plain b h.1)
    ∙ ap (λ x. some (db_sync_received a x)) (number_of-text b h.1)
read_tagged-format (db_sync_rejected a b) h =
    two_fields (λ x y. some (db_sync_rejected x y)) "fromPeerId" "reason" a b (refl, refl, refl) h.0
      h.1
read_tagged-format (recovery_request a) h =
    one_field (λ x. some (recovery_request x)) "fromPeerId" a refl h
read_tagged-format (recovery_served a b) h =
    two_fields (λ x y. some (recovery_served x (number_of y))) "toPeerId" "seq" a (number_text b)
      (refl, refl, refl) h.0 (number_text-plain b h.1)
    ∙ ap (λ x. some (recovery_served a x)) (number_of-text b h.1)
read_tagged-format (trust_peer_added a b) h =
    two_fields (λ x y. some (trust_peer_added x (is_true y))) "peerId" "sentry" a (bool_text b)
      (refl, refl, refl) h (bool_text-plain b)
    ∙ ap (λ x. some (trust_peer_added a x)) (is_true-bool_text b)
read_tagged-format (trust_peer_removed a) h =
    one_field (λ x. some (trust_peer_removed x)) "peerId" a refl h

-- A tag starts with a bracket and ends with one.
tag-trimmed :
    (m : Message) (x : Text)
    → (trim_start (tag m ++ x) ≡ tag m ++ x) × (trim_end (tag m ++ []) ≡ tag m ++ [])
tag-trimmed m x = ground arith

trim-format : (m : Message) → IsWritable m → trim (format m) ≡ format m
unfolding trim format
trim-format m h =
    ap trim_end (tag-trimmed m (render (fields m))).0
    ∙ trim_end-render (tag m) (fields m) (fields-IsWritten m h) (tag-trimmed m []).1

-- What is written of a message is parsed to that message, for each of the 19 kinds, if its texts
-- have no white space and are not empty, its numbers are naturals and its percentages have no
-- zeros at the end.
pub parse-format : (m : Message) → IsWritable m → parse_protocol_message (format m) ≡ some m
unfolding parse_protocol_message
parse-format m h = ap (read_tagged readers) (trim-format m h) ∙ read_tagged-format m h
