-- ===== src/Protocol/Parse.antt =====
-- guardian-network/src/shared/telegram-protocol.ts: `parseProtocolMessage`.
use Prim.Native.String.{String}
use attested_capital.Base.{Option, none, some, List, [], ◌∷◌}
use attested_capital.Protocol.{
  Message, agent_announce, guardian_announce, discover_request, discover_response, proposal_new,
  proposal_result, heartbeat_status, attestation_request, attestation_verified,
  attestation_rejected, vault_key_sent, vault_key_received, db_sync_sent, db_sync_received,
  db_sync_rejected, recovery_request, recovery_served, trust_peer_added, trust_peer_removed,
  is_true, status_of,
}
use attested_capital.Protocol.Texts.{Text, codes, strip_prefix, trim}
use attested_capital.Protocol.Numbers.{number_of}
use attested_capital.Protocol.Fields.{◌>>=◌, extract_field, extract_percent_field}

-- What is read behind each tag.
abbrev pub read_agent_announce : Text → Option Message
read_agent_announce rest = do
  endpoint ← extract_field rest "endpoint"
  tee_id ← extract_field rest "teeId"
  code_hash ← extract_field rest "codeHash"
  some (agent_announce endpoint tee_id code_hash)

abbrev pub read_guardian_announce : Text → Option Message
read_guardian_announce rest = do
  address ← extract_field rest "address"
  endpoint ← extract_field rest "endpoint"
  sentry ← extract_field rest "sentry"
  some (guardian_announce address endpoint (is_true sentry))

abbrev pub read_discover_response : Text → Option Message
read_discover_response rest = do
  address ← extract_field rest "address"
  endpoint ← extract_field rest "endpoint"
  sentry ← extract_field rest "sentry"
  some (discover_response address endpoint (is_true sentry))

abbrev pub read_proposal_new : Text → Option Message
read_proposal_new rest = do
  id ← extract_field rest "id"
  kind ← extract_field rest "type"
  threshold ← extract_percent_field rest "threshold"
  deadline ← extract_field rest "deadline"
  some (proposal_new id kind threshold deadline)

abbrev pub read_proposal_result : Text → Option Message
read_proposal_result rest = do
  id ← extract_field rest "id"
  text ← extract_field rest "status"
  approval ← extract_percent_field rest "approval"
  status ← status_of text
  some (proposal_result id status approval)

abbrev pub read_heartbeat_status : Text → Option Message
read_heartbeat_status rest = do
  active ← extract_field rest "active"
  uptime ← extract_field rest "uptime"
  some (heartbeat_status (is_true active) (number_of uptime))

abbrev pub read_attestation_request : Text → Option Message
read_attestation_request rest = do
  peer_id ← extract_field rest "peerId"
  pubkey ← extract_field rest "pubkey"
  some (attestation_request peer_id pubkey)

abbrev pub read_attestation_verified : Text → Option Message
read_attestation_verified rest = do
  peer_id ← extract_field rest "peerId"
  pubkey ← extract_field rest "pubkey"
  sentry ← extract_field rest "sentry"
  some (attestation_verified peer_id pubkey (is_true sentry))

abbrev pub read_attestation_rejected : Text → Option Message
read_attestation_rejected rest = do
  peer_id ← extract_field rest "peerId"
  reason ← extract_field rest "reason"
  some (attestation_rejected peer_id reason)

abbrev pub read_vault_key_sent : Text → Option Message
read_vault_key_sent rest = do
  to_peer_id ← extract_field rest "toPeerId"
  some (vault_key_sent to_peer_id)

abbrev pub read_vault_key_received : Text → Option Message
read_vault_key_received rest = do
  from_peer_id ← extract_field rest "fromPeerId"
  some (vault_key_received from_peer_id)

abbrev pub read_db_sync_sent : Text → Option Message
read_db_sync_sent rest = do
  seq ← extract_field rest "seq"
  peers ← extract_field rest "peers"
  size_kb ← extract_field rest "sizeKB"
  some (db_sync_sent (number_of seq) (number_of peers) (number_of size_kb))

abbrev pub read_db_sync_received : Text → Option Message
read_db_sync_received rest = do
  from_peer_id ← extract_field rest "fromPeerId"
  seq ← extract_field rest "seq"
  some (db_sync_received from_peer_id (number_of seq))

abbrev pub read_db_sync_rejected : Text → Option Message
read_db_sync_rejected rest = do
  from_peer_id ← extract_field rest "fromPeerId"
  reason ← extract_field rest "reason"
  some (db_sync_rejected from_peer_id reason)

abbrev pub read_recovery_request : Text → Option Message
read_recovery_request rest = do
  from_peer_id ← extract_field rest "fromPeerId"
  some (recovery_request from_peer_id)

abbrev pub read_recovery_served : Text → Option Message
read_recovery_served rest = do
  to_peer_id ← extract_field rest "toPeerId"
  seq ← extract_field rest "seq"
  some (recovery_served to_peer_id (number_of seq))

abbrev pub read_trust_peer_added : Text → Option Message
read_trust_peer_added rest = do
  peer_id ← extract_field rest "peerId"
  sentry ← extract_field rest "sentry"
  some (trust_peer_added peer_id (is_true sentry))

abbrev pub read_trust_peer_removed : Text → Option Message
read_trust_peer_removed rest = do
  peer_id ← extract_field rest "peerId"
  some (trust_peer_removed peer_id)

abbrev pub read_discover_request : Text → Option Message
read_discover_request [] = some discover_request
read_discover_request (c ∷ rest) = none

abbrev pub Reader : Type 0
Reader = Text → Option Message

abbrev pub readers : List (String × Reader)
readers =
    ("[ANNOUNCE:AGENT]", read_agent_announce)
    ∷ ("[ANNOUNCE:GUARDIAN]", read_guardian_announce)
    ∷ ("[DISCOVER:REQUEST]", read_discover_request)
    ∷ ("[DISCOVER:RESPONSE]", read_discover_response)
    ∷ ("[PROPOSAL:NEW]", read_proposal_new)
    ∷ ("[PROPOSAL:RESULT]", read_proposal_result)
    ∷ ("[HEARTBEAT:STATUS]", read_heartbeat_status)
    ∷ ("[ATTESTATION:REQUEST]", read_attestation_request)
    ∷ ("[ATTESTATION:VERIFIED]", read_attestation_verified)
    ∷ ("[ATTESTATION:REJECTED]", read_attestation_rejected)
    ∷ ("[VAULT:KEY_SENT]", read_vault_key_sent)
    ∷ ("[VAULT:KEY_RECEIVED]", read_vault_key_received)
    ∷ ("[DB:SYNC_SENT]", read_db_sync_sent)
    ∷ ("[DB:SYNC_RECEIVED]", read_db_sync_received)
    ∷ ("[DB:SYNC_REJECTED]", read_db_sync_rejected)
    ∷ ("[RECOVERY:REQUEST]", read_recovery_request)
    ∷ ("[RECOVERY:SERVED]", read_recovery_served)
    ∷ ("[TRUST:PEER_ADDED]", read_trust_peer_added)
    ∷ ("[TRUST:PEER_REMOVED]", read_trust_peer_removed)
    ∷ []

-- The first tag that the text starts with tells how it is read.
abbrev pub read_tagged : List (String × Reader) → Text → Option Message
read_tagged [] t = none
read_tagged ((name, read) ∷ rest) t = elim (strip_prefix (codes name) t) [
  | some behind ↦ read behind
  | none ↦ read_tagged rest t
]

unfoldable pub parse_protocol_message : Text → Option Message
parse_protocol_message text = read_tagged readers (trim text)
