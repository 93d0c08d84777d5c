-- ===== src/Guardian/Proposals.antt =====
-- guardian-network/src/sentry/proposals.ts: create, query and expire proposals.
pub mod Deadlines
use attested_capital.Base.{
  ℕ, ◌+◌, ◌*◌, max, str_eq, ◌&&◌, String, Bool, true, false, Option, none, some, List, [], ◌∷◌,
  ◌++◌, any, find, filter, length, update, ltb, if◌then◌else◌,
}
use attested_capital.Action.{ok, err, pure, gets, modify, require, ◌>>=◌, ◌>>◌}
use attested_capital.Guardian.{
  ProposalType, ProposalStatus, Proposal, Store, Error, constraint, Guarded, code_update, rpc_add,
  rpc_remove, strategy_change, anomaly_resolution, agent_registration, vault_key_rotation,
  trading_limits, emergency_pause, emergency_unpause, tee_measurement,
}
use attested_capital.Guardian.Clock.{to_iso, sql_now, text_le}

pub record Rules : Type 0 where
  pub threshold_pct : ℕ
  pub deadline_hours : ℕ

-- `PROPOSAL_RULES`
unfoldable pub proposal_rules : ProposalType → Rules
proposal_rules code_update = record { threshold_pct = 75; deadline_hours = 48 }
proposal_rules rpc_add = record { threshold_pct = 75; deadline_hours = 24 }
proposal_rules rpc_remove = record { threshold_pct = 75; deadline_hours = 24 }
proposal_rules strategy_change = record { threshold_pct = 75; deadline_hours = 24 }
proposal_rules anomaly_resolution = record { threshold_pct = 75; deadline_hours = 12 }
proposal_rules agent_registration = record { threshold_pct = 75; deadline_hours = 1 }
proposal_rules vault_key_rotation = record { threshold_pct = 75; deadline_hours = 4 }
proposal_rules trading_limits = record { threshold_pct = 75; deadline_hours = 24 }
proposal_rules emergency_pause = record { threshold_pct = 75; deadline_hours = 4 }
proposal_rules emergency_unpause = record { threshold_pct = 75; deadline_hours = 4 }
proposal_rules tee_measurement = record { threshold_pct = 75; deadline_hours = 24 }

-- `CreateProposalInput`
pub record ProposalInput : Type 0 where
  pub type : ProposalType
  pub proposer : String
  pub description : String
  pub payload : Option String
  pub threshold_pct : Option ℕ
  pub deadline_hours : Option ℕ
  pub fund_id : Option String

abbrev pub or_else {ℓ} : {A : Type ℓ} → Option A → A → A
or_else none d = d
or_else (some a) d = a

unfoldable pub proposal_of : ℕ → String → ProposalInput → Proposal
proposal_of now id input =
    let rules = proposal_rules input.type in
    let hours = or_else input.deadline_hours rules.deadline_hours in
    record {
      id = id;
      type = input.type;
      proposer = input.proposer;
      description = input.description;
      payload = input.payload;
      fund_id = input.fund_id;
      status = ProposalStatus.active;
      threshold_pct = max (or_else input.threshold_pct rules.threshold_pct) rules.threshold_pct;
      deadline = to_iso (now + hours * 60 * 60 * 1000);
    }

unfoldable pub get_by_id : String → Store → Option Proposal
get_by_id id store = find (λ p. str_eq p.id id) store.proposals

-- `id` is the random key; a key that is taken is refused by the table.
unfoldable pub create : ℕ → String → ProposalInput → Guarded String
create now id input store =
    if any (λ p. str_eq p.id id) store.proposals
    then (err constraint, store)
    else (ok id, record store { proposals = store.proposals ++ proposal_of now id input ∷ [] })

unfoldable pub has_status : ProposalStatus → Proposal → Bool
has_status ProposalStatus.active p = elim p.status [ ProposalStatus.active ↦ true | _ ↦ false ]
has_status ProposalStatus.passed p = elim p.status [ ProposalStatus.passed ↦ true | _ ↦ false ]
has_status ProposalStatus.failed p = elim p.status [ ProposalStatus.failed ↦ true | _ ↦ false ]
has_status ProposalStatus.expired p = elim p.status [ ProposalStatus.expired ↦ true | _ ↦ false ]

-- In the order of the table; the code orders by time of creation, newest first.
unfoldable pub list_by_status : ProposalStatus → Store → List Proposal
list_by_status status store = filter (has_status status) store.proposals

unfoldable pub list_active : Store → List Proposal
list_active = list_by_status ProposalStatus.active

-- Whether a row was changed is the result.
unfoldable pub set_status : String → ProposalStatus → Guarded Bool
set_status id status store = (
  ok (any (λ p. str_eq p.id id) store.proposals),
  record store {
    proposals = update (λ p. str_eq p.id id) (λ p. record p { status = status }) store.proposals;
  },
)

-- `status = 'active' AND deadline <= datetime('now')`, a comparison of texts.
unfoldable pub is_overdue : ℕ → Proposal → Bool
is_overdue now p = has_status ProposalStatus.active p && text_le p.deadline (sql_now now)

unfoldable pub expire : Proposal → Proposal
expire p = record p { status = ProposalStatus.expired }

unfoldable pub expire_overdue : ℕ → Guarded ℕ
expire_overdue now store = (
  ok (length (filter (is_overdue now) store.proposals)),
  record store { proposals = update (is_overdue now) expire store.proposals },
)

-- `stats()[status]`
unfoldable pub stats : ProposalStatus → Store → ℕ
stats status store = length (list_by_status status store)
