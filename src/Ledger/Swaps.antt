-- ===== src/Ledger/Swaps.antt =====
-- panthers-fund/src/database/ledger.ts: swaps of one NFT for another. Times are seconds, as the
-- texts 'YYYY-MM-DD HH:MM:SS' that the code compares are ordered like them.
pub mod Writes
use attested_capital.Base.{
  ℕ, ◌+◌, ◌*◌, ◌==◌, ltb, ◌&&◌, ◌||◌, not, str_eq, String, Bool, true, false, Option, [], ◌∷◌, ◌++◌,
  find, any, filter, length, update, if◌then◌else◌,
}
use attested_capital.Action.{
  ok, pure, throw, gets, or_throw, modify, require, transaction, ◌>>=◌, ◌>>◌,
}
use attested_capital.Ledger.{
  Db, SwapRequest, SwapStatus, swap_not_found, swap_not_pending, swap_expired, not_owner,
  target_not_owner, self_swap, duplicate_swap, not_proposer, not_target, Ledger, next_id,
}
use attested_capital.Ledger.Verify.{guard_not_paused, guard_account_active, verify_invariants}
use attested_capital.Ledger.Accounts.{transfer_nft_ownership}

unfoldable pub is_pending : SwapRequest → Bool
is_pending s = elim s.status [ SwapStatus.pending ↦ true | _ ↦ false ]

unfoldable pub set_status : SwapStatus → SwapRequest → SwapRequest
set_status status s = record s { status = status }

unfoldable pub update_swap : ℕ → SwapStatus → Ledger Unit
update_swap swap_id status = modify λ db. record db {
  p2p_swap_requests = update (λ s. s.id == swap_id) (set_status status) db.p2p_swap_requests;
}

unfoldable pub create_swap_request : ℕ → ℕ → String → ℕ → String → ℕ → Ledger SwapRequest
create_swap_request now proposer_token proposer target_token target hours = do
  guard_not_paused
  proposer_account ← guard_account_active proposer_token
  target_account ← guard_account_active target_token
  require (str_eq proposer_account.owner_telegram_id proposer) not_owner
  require (str_eq target_account.owner_telegram_id target) target_not_owner
  require (not (str_eq proposer target)) self_swap
  existing ← gets λ db.
      any
        (λ s.
          is_pending s
          && s.proposer_token_id == proposer_token
          && s.target_token_id == target_token)
        db.p2p_swap_requests
  require (not existing) duplicate_swap
  swap ← gets λ db. record {
    id = next_id db.p2p_swap_requests;
    proposer_token_id = proposer_token;
    proposer_telegram_id = proposer;
    target_token_id = target_token;
    target_telegram_id = target;
    status = SwapStatus.pending;
    expires_at = now + hours * 60 * 60;
  }
  modify λ db. record db { p2p_swap_requests = db.p2p_swap_requests ++ swap ∷ [] }
  pure swap

unfoldable pub get_swap_request : ℕ → Db → Option SwapRequest
get_swap_request swap_id db = find (λ s. s.id == swap_id) db.p2p_swap_requests

unfoldable pub find_pending_swap : ℕ → Ledger SwapRequest
find_pending_swap swap_id = do
  found ← gets (get_swap_request swap_id)
  swap ← or_throw found swap_not_found
  require (is_pending swap) swap_not_pending
  pure swap

-- `UPDATE … SET status = 'expired'` and the throw of a late swap.
unfoldable pub check_expiry : ℕ → SwapRequest → Ledger Unit
check_expiry now swap db =
    if ltb swap.expires_at now
    then (do update_swap swap.id SwapStatus.expired; throw swap_expired) db
    else (ok tt, db)

-- `proposer_token_id IN (?, ?) OR target_token_id IN (?, ?)`
unfoldable pub involves : SwapRequest → SwapRequest → Bool
involves swap s =
    (s.proposer_token_id == swap.proposer_token_id || s.proposer_token_id == swap.target_token_id)
    || (s.target_token_id == swap.proposer_token_id || s.target_token_id == swap.target_token_id)

unfoldable pub cancel_others : SwapRequest → Ledger Unit
cancel_others swap = modify λ db. record db {
  p2p_swap_requests =
      update (λ s. is_pending s && not (s.id == swap.id) && involves swap s)
        (set_status SwapStatus.cancelled) db.p2p_swap_requests;
}

-- The two owners change places.
unfoldable pub exchange : SwapRequest → Ledger Unit
exchange swap = do
  proposer_account ← guard_account_active swap.proposer_token_id
  target_account ← guard_account_active swap.target_token_id
  require (str_eq proposer_account.owner_telegram_id swap.proposer_telegram_id) not_owner
  require (str_eq target_account.owner_telegram_id swap.target_telegram_id) target_not_owner
  transfer_nft_ownership swap.proposer_token_id swap.target_telegram_id target_account.owner_address
  transfer_nft_ownership swap.target_token_id swap.proposer_telegram_id
      proposer_account.owner_address

unfoldable pub execute_swap : ℕ → ℕ → Ledger (Option SwapRequest)
execute_swap now swap_id = do
  guard_not_paused
  transaction do
    swap ← find_pending_swap swap_id
    check_expiry now swap
    exchange swap
    update_swap swap_id SwapStatus.accepted
    cancel_others swap
    verify_invariants
    gets (get_swap_request swap_id)

unfoldable pub cancel_swap_request : ℕ → String → Ledger Unit
cancel_swap_request swap_id telegram_id = do
  swap ← find_pending_swap swap_id
  require (str_eq swap.proposer_telegram_id telegram_id) not_proposer
  update_swap swap_id SwapStatus.cancelled

unfoldable pub reject_swap_request : ℕ → String → Ledger Unit
reject_swap_request swap_id telegram_id = do
  swap ← find_pending_swap swap_id
  require (str_eq swap.target_telegram_id telegram_id) not_target
  update_swap swap_id SwapStatus.rejected

unfoldable pub is_overdue : ℕ → SwapRequest → Bool
is_overdue now s = is_pending s && ltb s.expires_at now

-- The number of changed rows is the result.
unfoldable pub expire_old_swap_requests : ℕ → Ledger ℕ
expire_old_swap_requests now db = (
  ok (length (filter (is_overdue now) db.p2p_swap_requests)),
  record db {
    p2p_swap_requests =
        update (is_overdue now) (set_status SwapStatus.expired) db.p2p_swap_requests;
  },
)
