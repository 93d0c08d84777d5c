-- ===== src/Ledger/Swaps/Writes.antt =====
-- panthers-fund/src/database/ledger.ts: the methods on swaps that write to the table of swaps alone
-- keep what does not look at it.
use attested_capital.Base.{ℕ, String, List}
use attested_capital.Action.Ensures.{
  Keeps, keeps_rules, Keeps-bind, Keeps-then, Keeps-gets, Keeps-pure, Keeps-require, Keeps-modify,
}
use attested_capital.Ledger.{Db, SwapRequest, SwapStatus}
use attested_capital.Ledger.Guards.{guard_not_paused-Keeps, guard_account_active-Keeps}
use attested_capital.Ledger.Swaps.{
  create_swap_request, find_pending_swap, update_swap, cancel_others, cancel_swap_request,
  reject_swap_request, expire_old_swap_requests,
}

pub find_pending_swap-Keeps : {P : Db → Type 0} (id : ℕ) → Keeps P (find_pending_swap id)
unfolding find_pending_swap
find_pending_swap-Keeps id = search keeps_rules depth 8

module _ (P : Db → Type 0)
    (mark : (s : Db) (swaps : List SwapRequest)
      → P s
      → P (record s { p2p_swap_requests = swaps })) where
  pub update_swap-Keeps : (id : ℕ) (status : SwapStatus) → Keeps P (update_swap id status)
  unfolding update_swap
  update_swap-Keeps id status = Keeps-modify _ (λ s h. mark s _ h)

  pub cancel_others-Keeps : (swap : SwapRequest) → Keeps P (cancel_others swap)
  unfolding cancel_others
  cancel_others-Keeps swap = Keeps-modify _ (λ s h. mark s _ h)

  pub create_swap_request-Keeps :
      (now p : ℕ) (proposer : String) (t : ℕ) (target : String) (hours : ℕ)
      → Keeps P (create_swap_request now p proposer t target hours)
  unfolding create_swap_request
  create_swap_request-Keeps now p proposer t target hours = Keeps-then _ _ guard_not_paused-Keeps (
      Keeps-bind _ _ (guard_account_active-Keeps p) λ a.
        Keeps-bind _ _ (guard_account_active-Keeps t) λ b. Keeps-then _ _ (Keeps-require _ _) (
          Keeps-then _ _ (Keeps-require _ _) (
            Keeps-then _ _ (Keeps-require _ _) (
              Keeps-bind _ _ (Keeps-gets _) λ existing. Keeps-then _ _ (Keeps-require _ _) (
                Keeps-bind _ _ (Keeps-gets _)
                  λ swap. Keeps-then _ _ (Keeps-modify _ (λ s h. mark s _ h)) (Keeps-pure _))))))

  pub cancel_swap_request-Keeps :
      (id : ℕ) (telegram_id : String) → Keeps P (cancel_swap_request id telegram_id)
  unfolding cancel_swap_request
  cancel_swap_request-Keeps id telegram_id =
      search (keeps_rules, find_pending_swap-Keeps, update_swap-Keeps) depth 8

  pub reject_swap_request-Keeps :
      (id : ℕ) (telegram_id : String) → Keeps P (reject_swap_request id telegram_id)
  unfolding reject_swap_request
  reject_swap_request-Keeps id telegram_id =
      search (keeps_rules, find_pending_swap-Keeps, update_swap-Keeps) depth 8

  pub expire_old_swap_requests-Keeps : (now : ℕ) → Keeps P (expire_old_swap_requests now)
  unfolding expire_old_swap_requests
  expire_old_swap_requests-Keeps now = record { at = λ s h. mark s _ h }
