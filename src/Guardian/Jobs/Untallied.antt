-- ===== src/Guardian/Jobs/Untallied.antt =====
-- What is left to tally after the job has expired what it takes for overdue.
use native.Mathlib.Decide.{dec_lt}
use attested_capital.Base.{
  ◌⊎◌, ℕ, ◌/◌, ◌≡◌, refl, str_eq, String, Bool-cases, inl, inr, true, false, some, List, [], ◌∷◌,
  All, find, update, if◌then◌else◌, arith,
}
use attested_capital.Action.{after}
use attested_capital.Guardian.{Proposal, ProposalStatus, Store}
use attested_capital.Guardian.Clock.{to_iso, millis, day_ms}
use attested_capital.Guardian.Proposals.{get_by_id, has_status, is_overdue, expire, expire_overdue}
use attested_capital.Guardian.Proposals.Deadlines.{is_overdue-from_midnight}
use attested_capital.Guardian.Voting.Due.{is_due}

find-expired :
    (now : ℕ) (id : String) (rows : List Proposal) (p : Proposal)
    → find (λ q. str_eq q.id id) rows ≡ some p
    → find (λ q. str_eq q.id id) (update (is_overdue now) expire rows)
      ≡ some (if is_overdue now p then expire p else p)
unfolding expire
find-expired now id [] p h = cc
find-expired now id (q ∷ rows) p h = ground (arith, find-expired now id rows p)

millis-to_iso : (ms : ℕ) → millis (to_iso ms) ≡ ms
unfolding millis to_iso
millis-to_iso ms = omega arith

expired_idle : (q : Proposal) → has_status ProposalStatus.active (expire q) ≡ false
unfolding has_status expire
expired_idle q = refl

left_active :
    (now : ℕ) (q : Proposal) (deadline : ℕ)
    → q.deadline ≡ to_iso deadline
    → is_overdue now q ≡ false
    → is_due now q ≡ true
    → millis q.deadline / day_ms ≡ now / day_ms
left_active now q deadline written kept due =
    let at : millis q.deadline ≡ deadline = rw written (millis-to_iso deadline) in
    let later = (is_overdue-from_midnight now deadline q written).1 in
    elim (dec_lt (deadline / day_ms) (now / day_ms)) [
      | yes before ↦ absurd (cc (later (ground arith, before)))
      | no same ↦ ground arith
    ]

-- A proposal that is active and due after the step that expires has its deadline on the day.
same_day :
    (now : ℕ) (rows : List Proposal)
    → All (λ q. (deadline : ℕ) × (q.deadline ≡ to_iso deadline)) rows
    → All
        (λ q. is_due now q ≡ true → millis q.deadline / day_ms ≡ now / day_ms)
        (update (is_overdue now) expire rows)
unfolding expire
same_day now [] h = tt
same_day now (q ∷ rows) h = (first (Bool-cases (is_overdue now q)), same_day now rows h.1)
  where
    first :
        (is_overdue now q ≡ true) ⊎ (is_overdue now q ≡ false)
        → is_due now (if is_overdue now q then expire q else q) ≡ true
        → millis (if is_overdue now q then expire q else q).deadline / day_ms ≡ now / day_ms
    first (inl over) = rw over (λ due. ground (arith, expired_idle q))
    first (inr kept) = rw kept (λ due. left_active now q h.0.0 h.0.1 kept due)

-- The step of the job that expires takes an overdue proposal out of the vote, whatever its votes
-- are. Where the deadlines were written as the code writes them, only proposals whose deadline is
-- on the day of the job (UTC) are left to be tallied.
pub expire_overdue-untallied :
    (now : ℕ) (store : Store)
    → All (λ q. (deadline : ℕ) × (q.deadline ≡ to_iso deadline)) store.proposals
    → (t : Store) × (after (expire_overdue now store) ≡ t)
      × ((id : String) (p : Proposal)
          → get_by_id id store ≡ some p
          → get_by_id id t ≡ some (if is_overdue now p then expire p else p))
      × All (λ q. is_due now q ≡ true → millis q.deadline / day_ms ≡ now / day_ms) t.proposals
unfolding expire_overdue get_by_id
expire_overdue-untallied now store written = (
  _,
  refl,
  λ id p h. find-expired now id store.proposals p h,
  same_day now store.proposals written,
)
