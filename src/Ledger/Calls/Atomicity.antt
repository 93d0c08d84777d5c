-- ===== src/Ledger/Calls/Atomicity.antt =====
-- panthers-fund/src/database/ledger.ts: what a call that throws leaves behind. In a transaction the
-- pause that a violated invariant asks for is rolled back with the rest; in a check by itself it is
-- not.
use attested_capital.Base.{ℕ, ◌≡◌, ◌≢◌, ◌∙◌, refl, ap, sym, inl, inr, ◌⊎◌}
use attested_capital.Action.{err}
use attested_capital.Action.Ensures.{IsAtomic, Reads}
use attested_capital.Action.Atomic.{atomic_rules, IsAtomic-bind_pure, IsAtomic-modify_only}
use attested_capital.Ledger.{TradeInput, Db, Error, Ledger, SwapStatus}
use attested_capital.Ledger.Verify.{pause_fund, unpause_fund, verify_invariants}
use attested_capital.Ledger.Consistency.{paused, verify_invariants_decides}
use attested_capital.Ledger.Guards.{guard_not_paused-Reads, guard_account_active-Reads}
use attested_capital.Ledger.Accounts.{
  create_nft_account, set_mint_address, add_funds_to_nft, transfer_nft_ownership,
}
use attested_capital.Ledger.Trades.{record_trade}
use attested_capital.Ledger.Withdrawals.{record_withdrawal}
use attested_capital.Ledger.Market.{record_p2p_sale, create_p2p_listing, cancel_p2p_listing}
use attested_capital.Ledger.Swaps.{
  create_swap_request, find_pending_swap, update_swap, execute_swap, cancel_swap_request,
  reject_swap_request, expire_old_swap_requests,
}
use attested_capital.Ledger.Calls.{
  Call, creates, adds_funds, trades, withdraws, sells, lists, cancels_listing, proposes_swap,
  executes_swap, cancels_swap, rejects_swap, expires_swaps, sets_mint_address, transfers, pauses,
  unpauses, verifies, discard, perform,
}

find_pending_swap-Reads : (id : ℕ) → Reads (find_pending_swap id)
unfolding find_pending_swap
find_pending_swap-Reads id = search atomic_rules depth 8

update_swap-IsAtomic : (id : ℕ) (status : SwapStatus) → IsAtomic (update_swap id status)
unfolding update_swap
update_swap-IsAtomic id status = IsAtomic-modify_only _

ruleset atomicity = (
  atomic_rules, guard_not_paused-Reads, guard_account_active-Reads, find_pending_swap-Reads,
  update_swap-IsAtomic,
)

expire_old_swap_requests-IsAtomic : (now : ℕ) → IsAtomic (expire_old_swap_requests now)
unfolding expire_old_swap_requests
expire_old_swap_requests-IsAtomic now = record { throws = λ s t e q. cc }

discard-IsAtomic : {A : Type 0} (m : Ledger A) → IsAtomic m → IsAtomic (discard m)
unfolding discard
discard-IsAtomic m h = IsAtomic-bind_pure m (λ _. tt) h

pub record_trade-IsAtomic : (input : TradeInput) → IsAtomic (record_trade input)
unfolding record_trade
record_trade-IsAtomic input = search atomicity depth 14

perform-IsAtomic : (c : Call) → c ≢ verifies → IsAtomic (perform c)
unfolding perform create_nft_account add_funds_to_nft record_withdrawal record_p2p_sale execute_swap
    create_p2p_listing cancel_p2p_listing create_swap_request cancel_swap_request
    reject_swap_request set_mint_address transfer_nft_ownership pause_fund unpause_fund
perform-IsAtomic (creates a b c d e f) other = discard-IsAtomic _ (search atomicity depth 14)
perform-IsAtomic (adds_funds a b c) other = discard-IsAtomic _ (search atomicity depth 14)
perform-IsAtomic (trades a) other = discard-IsAtomic _ (record_trade-IsAtomic a)
perform-IsAtomic (withdraws a b c) other = discard-IsAtomic _ (search atomicity depth 14)
perform-IsAtomic (sells a b c d e) other = discard-IsAtomic _ (search atomicity depth 14)
perform-IsAtomic (lists a b) other = discard-IsAtomic _ (search atomicity depth 14)
perform-IsAtomic (cancels_listing a) other = IsAtomic-modify_only _
perform-IsAtomic (proposes_swap a b c d e f) other = discard-IsAtomic _ (search atomicity depth 20)
perform-IsAtomic (executes_swap a b) other = discard-IsAtomic _ (search atomicity depth 14)
perform-IsAtomic (cancels_swap a b) other = search atomicity depth 8
perform-IsAtomic (rejects_swap a b) other = search atomicity depth 8
perform-IsAtomic (expires_swaps a) other = discard-IsAtomic _ (expire_old_swap_requests-IsAtomic a)
perform-IsAtomic (sets_mint_address a b) other = IsAtomic-modify_only _
perform-IsAtomic (transfers a b c) other = IsAtomic-modify_only _
perform-IsAtomic pauses other = IsAtomic-modify_only _
perform-IsAtomic unpauses other = IsAtomic-modify_only _
perform-IsAtomic verifies other = absurd (other refl)

verify_invariants-pauses :
    (db t : Db) (e : Error) → verify_invariants db ≡ (err e, t) → t ≡ paused db
verify_invariants-pauses db t e h = elim (verify_invariants_decides db) [
  | inl (c, passed) ↦ cc
  | inr (n, (why, v)) ↦ ap (λ r. r.1) (sym h ∙ v)
]

-- What a throw of a call leaves.
abbrev pub left_by : Call → Db → Db
left_by c db = elim c [ verifies ↦ paused db | _ ↦ db ]

left_by-cases : (c : Call) (db : Db) → (c ≡ verifies) ⊎ ((c ≢ verifies) × (left_by c db ≡ db))
left_by-cases c db = elim c as (λ k. (k ≡ verifies) ⊎ ((k ≢ verifies) × (left_by k db ≡ db))) [
  | verifies ↦ inl refl
  | _ ↦ inr ((λ e. cc), refl)
]

-- Whatever method of the ledger throws, and whatever it had written by then, the ledger is as it
-- was, also the mark `is_paused`, which a violated invariant sets before it throws; only where
-- `verifyInvariants` is the call itself, outside of a transaction, is the fund paused, and nothing
-- else is written.
pub throw_leaves_no_trace :
    (c : Call) (db t : Db) (e : Error) → perform c db ≡ (err e, t) → t ≡ left_by c db
unfolding perform
throw_leaves_no_trace c db t e h = elim (left_by-cases c db) [
  | inr (other, same) ↦ (perform-IsAtomic c other).throws db t e h ∙ sym same
  | inl check ↦
      verify_invariants-pauses db t e (ap (λ call. perform call db) (sym check) ∙ h)
      ∙ ap (λ call. left_by call db) (sym check)
]
