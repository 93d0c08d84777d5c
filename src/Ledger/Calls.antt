-- ===== src/Ledger/Calls.antt =====
-- panthers-fund/src/database/ledger.ts: the methods that write, as calls, and their sequences. A
-- caller catches what a call throws.
pub mod Safety
pub mod Atomicity
use attested_capital.Base.{ℕ, String, Option, List, [], ◌∷◌}
use attested_capital.Base.Int.{ℤ}
use attested_capital.Action.{Action, pure, after, ◌>>=◌}
use attested_capital.Ledger.{Db, Error, TradeInput, Ledger}
use attested_capital.Ledger.Verify.{pause_fund, unpause_fund, verify_invariants}
use attested_capital.Ledger.Accounts.{
  create_nft_account, set_mint_address, add_funds_to_nft, transfer_nft_ownership,
}
use attested_capital.Ledger.Trades.{record_trade}
use attested_capital.Ledger.Withdrawals.{record_withdrawal}
use attested_capital.Ledger.Market.{record_p2p_sale, create_p2p_listing, cancel_p2p_listing}
use attested_capital.Ledger.Swaps.{
  create_swap_request, execute_swap, cancel_swap_request, reject_swap_request,
  expire_old_swap_requests,
}

pub data Call : Type 0 where
  creates : ℕ → ℕ → String → String → ℤ → Option String → Call
  adds_funds : ℕ → ℤ → String → Call
  trades : TradeInput → Call
  withdraws : ℕ → String → String → Call
  sells : ℕ → String → String → ℤ → String → Call
  lists : ℕ → ℤ → Call
  cancels_listing : ℕ → Call
  proposes_swap : ℕ → ℕ → String → ℕ → String → ℕ → Call
  executes_swap : ℕ → ℕ → Call
  cancels_swap rejects_swap : ℕ → String → Call
  expires_swaps : ℕ → Call
  sets_mint_address : ℕ → String → Call
  transfers : ℕ → String → String → Call
  pauses unpauses : Call
  -- The check of the invariants by itself, outside of any transaction.
  verifies : Call

-- A call whose result is not read.
unfoldable pub discard : {A : Type 0} → Ledger A → Ledger Unit
discard m = do _ ← m; pure tt

unfoldable pub perform : Call → Ledger Unit
perform (creates max_nfts token_id owner address deposit mint) =
    discard (create_nft_account max_nfts token_id owner address deposit mint)
perform (adds_funds token_id amount tx_hash) = discard (add_funds_to_nft token_id amount tx_hash)
perform (trades input) = discard (record_trade input)
perform (withdraws token_id address signature) =
    discard (record_withdrawal token_id address signature)
perform (sells token_id buyer address price signature) =
    discard (record_p2p_sale token_id buyer address price signature)
perform (lists token_id price) = discard (create_p2p_listing token_id price)
perform (cancels_listing id) = cancel_p2p_listing id
perform (proposes_swap now proposer_token proposer target_token target hours) =
    discard (create_swap_request now proposer_token proposer target_token target hours)
perform (executes_swap now id) = discard (execute_swap now id)
perform (cancels_swap id telegram_id) = cancel_swap_request id telegram_id
perform (rejects_swap id telegram_id) = reject_swap_request id telegram_id
perform (expires_swaps now) = discard (expire_old_swap_requests now)
perform (sets_mint_address token_id mint) = set_mint_address token_id mint
perform (transfers token_id owner address) = transfer_nft_ownership token_id owner address
perform pauses = pause_fund
perform unpauses = unpause_fund
perform verifies = verify_invariants

unfoldable pub run : List Call → Db → Db
run [] db = db
run (c ∷ calls) db = run calls (after (perform c db))
