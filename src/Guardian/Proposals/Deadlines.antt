-- ===== src/Guardian/Proposals/Deadlines.antt =====
-- The threshold that a proposal is created with, and when the table takes its deadline for past.
use attested_capital.Base.{
  ℕ, ◌/◌, ◌≤◌, ◌<◌, ◌≡◌, ◌↔◌, str_eq, String, Bool-cases, inl, inr, true, All, All-append, any,
  arith,
}
use attested_capital.Action.{after}
use attested_capital.Guardian.{Proposal, ProposalStatus, Store}
use attested_capital.Guardian.Clock.{to_iso, sql_now, text_le, day_ms}
use attested_capital.Guardian.Proposals.{
  proposal_rules, ProposalInput, proposal_of, create, has_status, is_overdue,
}

-- A proposal needs three quarters of the pool.
abbrev pub IsSupermajority : Proposal → Type 0
IsSupermajority p = 75 ≤ p.threshold_pct

proposal_of-IsSupermajority :
    (now : ℕ) (id : String) (input : ProposalInput) → IsSupermajority (proposal_of now id input)
unfolding proposal_of proposal_rules
proposal_of-IsSupermajority now id input = ground arith

-- Whatever threshold is asked for, a proposal that is created needs at least 75 percent of the pool.
pub create-IsSupermajority :
    (now : ℕ) (id : String) (input : ProposalInput) (store : Store)
    → All IsSupermajority store.proposals
    → All IsSupermajority (after (create now id input store)).proposals
unfolding create
create-IsSupermajority now id input store h =
    elim (Bool-cases (any (λ p. str_eq p.id id) store.proposals)) [
      | inl taken ↦ rw taken h
      | inr new ↦ rw new (
          All-append IsSupermajority store.proposals _ h
            (proposal_of-IsSupermajority now id input, tt))
    ]

-- The table compares the deadline, which is written as an ISO text, with SQLite's own text of the
-- time. So an active proposal is overdue from the first midnight (UTC) after its deadline on, not
-- from its deadline on.
pub is_overdue-from_midnight :
    (now deadline : ℕ) (p : Proposal)
    → p.deadline ≡ to_iso deadline
    → (is_overdue now p ≡ true)
      ↔ ((has_status ProposalStatus.active p ≡ true) × (deadline / day_ms < now / day_ms))
unfolding is_overdue text_le sql_now to_iso
is_overdue-from_midnight now deadline p h =
    rw h ((λ q. (ground arith, ground arith)), λ q. ground arith)
