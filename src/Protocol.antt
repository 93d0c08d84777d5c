-- ===== src/Protocol.antt =====
-- guardian-network/src/shared/telegram-protocol.ts, of which panthers-fund/src/agent/telegram-protocol.ts
-- is a copy: the texts by which agents and guardians announce themselves in a group. A text is the
-- list of its code points.
pub mod Texts
pub mod Numbers
pub mod Fields
mod Lookup
mod Parse
mod Decimals
mod Trim
mod Readers
mod Writable
mod RoundTrip
mod Examples
use attested_capital.Base.{
  ℕ, ◌==◌, Bool, true, false, Option, none, some, List, [], ◌∷◌, ◌++◌, if◌then◌else◌,
}
use Texts.{Text, codes, text_eq, strip_prefix, trim}
use Numbers.{Number, Percent, natural, number_of, number_text, percent_text}
use Fields.{field, render, extract_field, extract_percent_field, ◌>>=◌}

-- `ProtocolMessage`, each with the fields of its data.
pub data Message : Type 0 where
  agent_announce : Text → Text → Text → Message
  guardian_announce : Text → Text → Bool → Message
  discover_request : Message
  discover_response : Text → Text → Bool → Message
  proposal_new : Text → Text → Percent → Text → Message
  proposal_result : Text → Bool → Percent → Message
  heartbeat_status : Bool → Number → Message
  attestation_request : Text → Text → Message
  attestation_verified : Text → Text → Bool → Message
  attestation_rejected : Text → Text → Message
  vault_key_sent : Text → Message
  vault_key_received : Text → Message
  db_sync_sent : Number → Number → Number → Message
  db_sync_received : Text → Number → Message
  db_sync_rejected : Text → Text → Message
  recovery_request : Text → Message
  recovery_served : Text → Number → Message
  trust_peer_added : Text → Bool → Message
  trust_peer_removed : Text → Message

-- `${flag}` and `text === 'true'`
abbrev pub bool_text : Bool → Text
bool_text true = codes "true"
bool_text false = codes "false"

abbrev pub is_true : Text → Bool
is_true t = text_eq t (codes "true")

-- The status of a proposal's result: approved or rejected.
abbrev pub status_text : Bool → Text
status_text true = codes "approved"
status_text false = codes "rejected"

abbrev pub status_of : Text → Option Bool
status_of t =
    if text_eq t (codes "approved")
    then some true
    else if text_eq t (codes "rejected")
    then some false
    else none

-- The tag of a message, and its fields.
abbrev pub tag : Message → Text
tag (agent_announce e t c) = codes "[ANNOUNCE:AGENT]"
tag (guardian_announce a e s) = codes "[ANNOUNCE:GUARDIAN]"
tag discover_request = codes "[DISCOVER:REQUEST]"
tag (discover_response a e s) = codes "[DISCOVER:RESPONSE]"
tag (proposal_new i t p d) = codes "[PROPOSAL:NEW]"
tag (proposal_result i s p) = codes "[PROPOSAL:RESULT]"
tag (heartbeat_status a u) = codes "[HEARTBEAT:STATUS]"
tag (attestation_request p k) = codes "[ATTESTATION:REQUEST]"
tag (attestation_verified p k s) = codes "[ATTESTATION:VERIFIED]"
tag (attestation_rejected p r) = codes "[ATTESTATION:REJECTED]"
tag (vault_key_sent p) = codes "[VAULT:KEY_SENT]"
tag (vault_key_received p) = codes "[VAULT:KEY_RECEIVED]"
tag (db_sync_sent s p k) = codes "[DB:SYNC_SENT]"
tag (db_sync_received p s) = codes "[DB:SYNC_RECEIVED]"
tag (db_sync_rejected p r) = codes "[DB:SYNC_REJECTED]"
tag (recovery_request p) = codes "[RECOVERY:REQUEST]"
tag (recovery_served p s) = codes "[RECOVERY:SERVED]"
tag (trust_peer_added p s) = codes "[TRUST:PEER_ADDED]"
tag (trust_peer_removed p) = codes "[TRUST:PEER_REMOVED]"

abbrev pub fields : Message → List (Text × Text)
fields (agent_announce e t c) = field "endpoint" e ∷ field "teeId" t ∷ field "codeHash" c ∷ []
fields (guardian_announce a e s) =
    field "address" a ∷ field "endpoint" e ∷ field "sentry" (bool_text s) ∷ []
fields discover_request = []
fields (discover_response a e s) =
    field "address" a ∷ field "endpoint" e ∷ field "sentry" (bool_text s) ∷ []
fields (proposal_new i t p d) =
    field "id" i ∷ field "type" t ∷ field "threshold" (percent_text p) ∷ field "deadline" d ∷ []
fields (proposal_result i s p) =
    field "id" i ∷ field "status" (status_text s) ∷ field "approval" (percent_text p) ∷ []
fields (heartbeat_status a u) = field "active" (bool_text a) ∷ field "uptime" (number_text u) ∷ []
fields (attestation_request p k) = field "peerId" p ∷ field "pubkey" k ∷ []
fields (attestation_verified p k s) =
    field "peerId" p ∷ field "pubkey" k ∷ field "sentry" (bool_text s) ∷ []
fields (attestation_rejected p r) = field "peerId" p ∷ field "reason" r ∷ []
fields (vault_key_sent p) = field "toPeerId" p ∷ []
fields (vault_key_received p) = field "fromPeerId" p ∷ []
fields (db_sync_sent s p k) =
    field "seq" (number_text s)
    ∷ field "peers" (number_text p)
    ∷ field "sizeKB" (number_text k)
    ∷ []
fields (db_sync_received p s) = field "fromPeerId" p ∷ field "seq" (number_text s) ∷ []
fields (db_sync_rejected p r) = field "fromPeerId" p ∷ field "reason" r ∷ []
fields (recovery_request p) = field "fromPeerId" p ∷ []
fields (recovery_served p s) = field "toPeerId" p ∷ field "seq" (number_text s) ∷ []
fields (trust_peer_added p s) = field "peerId" p ∷ field "sentry" (bool_text s) ∷ []
fields (trust_peer_removed p) = field "peerId" p ∷ []

-- The format functions, all of which write a tag and fields.
unfoldable pub format : Message → Text
format m = tag m ++ render (fields m)
