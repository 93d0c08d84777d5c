-- ===== src/Protocol/Examples.antt =====
-- guardian-network/src/shared/telegram-protocol.ts: messages written and read.
use attested_capital.Base.{none, some, ◌≡◌, refl}
use attested_capital.Protocol.{Message, proposal_new, db_sync_received, db_sync_rejected, format}
use attested_capital.Protocol.Texts.{codes, trim}
use attested_capital.Protocol.Numbers.{natural, percent_text, number_of}
use attested_capital.Protocol.Fields.{extract_field}
use attested_capital.Protocol.Parse.{parse_protocol_message}
use attested_capital.Protocol.RoundTrip.{parse-format}

abbrev raise_limits : Message
raise_limits =
    proposal_new (codes "P-17") (codes "risk_rule_change")
      (record { whole = 66; fraction = codes "7" }) (codes "2025-03-01T00:00:00.000Z")

raise_limits-text :
    format raise_limits
    ≡ codes
        "[PROPOSAL:NEW] id=P-17 type=risk_rule_change threshold=66.7% deadline=2025-03-01T00:00:00.000Z"
unfolding format percent_text
raise_limits-text = refl

parse-format_example : parse_protocol_message (format raise_limits) ≡ some raise_limits
parse-format_example = parse-format raise_limits (refl, refl, refl, refl)

-- White space around the text, and fields in another order.
parse-loose :
    parse_protocol_message (codes " [DB:SYNC_RECEIVED] seq=0012 fromPeerId=g1 \n")
    ≡ some (db_sync_received (codes "g1") (natural 12))
unfolding parse_protocol_message trim extract_field number_of
parse-loose = refl

parse-missing : parse_protocol_message (codes "[DB:SYNC_RECEIVED] seq=12") ≡ none
unfolding parse_protocol_message trim extract_field
parse-missing = refl

-- Of a reason with spaces only the first word is read.
parse-reason :
    parse_protocol_message (format (db_sync_rejected (codes "g1") (codes "Unknown sender: g1")))
    ≡ some (db_sync_rejected (codes "g1") (codes "Unknown"))
unfolding parse_protocol_message format trim extract_field
parse-reason = refl
