-- ===== src/Ledger/Examples.antt =====
-- The ledger's theorems at concrete stores, and runs of the operations.
use attested_capital.Base.{All, ℕ, ◌≡◌, refl, false, true, none, some, List, [], ◌∷◌, arith}
use attested_capital.Base.Int.{ℤ, pos, negsuc, ◌+ℤ◌, ◌-ℤ◌}
use attested_capital.Action.{ok, err, transaction, for_each, ◌>>=◌, ◌>>◌}
use attested_capital.Ledger.{
  Db, NftAccount, TradeInput, Direction, pool_balance, trade_allocation, empty,
}
use attested_capital.Ledger.Verify.{
  guard_not_paused, violation, pause_fund, verify_pool_balance, off_balance, verify_account_balance,
  alloc_sum, misallocated, verify_trade_allocations, verify_invariants,
}
use attested_capital.Ledger.Shares.{
  Share, trunc_share, truncated, sum_shares, sorts_before, insert_share, sort_shares, bump, correct,
  direction_of, pnl_shares,
}
use attested_capital.Ledger.Shares.Exact.{balances}
use attested_capital.Ledger.Shares.Sums.{pnl_shares_exact}
use attested_capital.Ledger.Shares.Losses.{IsCovered}
use attested_capital.Ledger.Shares.Bounds.{pnl_shares-IsCovered}
use attested_capital.Ledger.Accounts.{insert_row, insert_account, add_to_pool, create_nft_account}
use attested_capital.Ledger.Trades.{
  apply_share, update_balance, insert_allocation, shift_pool, allocate, settle,
  distribute_trade_pnl, insert_trade, record_trade,
}
use attested_capital.Ledger.Trades.Recorded.{record_trade-returns}
use attested_capital.Ledger.Consistency.{IsConsistent, paused}
use attested_capital.Ledger.Calls.{Call, creates, trades, verifies, discard, perform, run}
use attested_capital.Ledger.Calls.Safety.{run-IsConsistent, empty-IsConsistent}
use attested_capital.Ledger.Calls.Atomicity.{throw_leaves_no_trace}

abbrev account : ℕ → ℕ → NftAccount
account token_id balance = record {
  token_id = token_id;
  owner_telegram_id = "alice";
  owner_address = "A1";
  initial_deposit = balance;
  current_balance = balance;
  total_pnl = pos 0;
  is_active = true;
  mint_address = none;
}

abbrev two_accounts : List NftAccount
two_accounts = account 1 100 ∷ account 2 200 ∷ []

abbrev trade_of : ℤ → TradeInput
trade_of profit_loss = record {
  strategy = "momentum";
  pair = "SOL/USDC";
  direction = Direction.long;
  entry_price = 100;
  exit_price = 110;
  amount = 50;
  profit_loss = profit_loss;
  signature = "s";
  attestation = "a";
}

-- Seven cents of loss over 100 and 200: -2 and -4, and the missing cent from the larger one.
split_test :
    pnl_shares (negsuc 6) 300 two_accounts
    ≡ some (
        record { token_id = 2; share = negsuc 4; balance = 200 }
        ∷ record { token_id = 1; share = negsuc 1; balance = 100 }
        ∷ [])
unfolding pnl_shares correct bump direction_of truncated trunc_share sum_shares sort_shares
    insert_share sorts_before ◌+ℤ◌ ◌-ℤ◌
split_test = refl

pnl_shares_exact_example :
    (shares : List Share) × (pnl_shares (negsuc 6) (balances two_accounts) two_accounts
      ≡ some shares)
    × (sum_shares shares ≡ negsuc 6)
pnl_shares_exact_example = pnl_shares_exact (negsuc 6) two_accounts (λ e. cc) (omega arith)

pnl_shares-IsCovered_example :
    (shares : List Share) × (pnl_shares (negsuc 6) (balances two_accounts) two_accounts
      ≡ some shares)
    × All IsCovered shares
pnl_shares-IsCovered_example =
    pnl_shares-IsCovered (negsuc 6) two_accounts (λ e. cc) (omega arith) (omega arith)

abbrev deposits : List Call
deposits =
    creates 500 1 "alice" "A1" (pos 100) none
    ∷ creates 500 2 "bob" "B1" (pos 200) none
    ∷ trades (trade_of (negsuc 6))
    ∷ []

-- After two deposits and a trade the pool holds 293 cents.
run_test : (run deposits empty).total_pool_balance ≡ 293
unfolding run perform discard create_nft_account insert_row insert_account add_to_pool record_trade
    insert_trade distribute_trade_pnl settle allocate shift_pool insert_allocation update_balance
    apply_share guard_not_paused verify_invariants verify_pool_balance verify_account_balance
    verify_trade_allocations off_balance misallocated alloc_sum violation pause_fund transaction
    for_each pnl_shares correct bump direction_of truncated trunc_share sum_shares sort_shares
    insert_share sorts_before ◌>>=◌ ◌>>◌ ◌+ℤ◌ ◌-ℤ◌
run_test = refl

run-IsConsistent_example : IsConsistent (run deposits empty)
run-IsConsistent_example = run-IsConsistent deposits empty empty-IsConsistent

-- A profit with nobody to share it fails the third invariant, and the pause is rolled back.
orphan_profit : perform (trades (trade_of (pos 7))) empty ≡ (err (trade_allocation), empty)
unfolding perform discard record_trade insert_trade distribute_trade_pnl guard_not_paused
    verify_invariants verify_pool_balance verify_account_balance verify_trade_allocations
    misallocated alloc_sum violation pause_fund transaction ◌>>=◌ ◌>>◌
orphan_profit = refl

-- The check by itself leaves the fund paused.
abbrev lost_cents : Db
lost_cents = record empty { fund = record empty.fund { total_pool_balance = 5 } }

caught_by_check : perform verifies lost_cents ≡ (err pool_balance, paused lost_cents)
unfolding perform verify_invariants verify_pool_balance violation pause_fund ◌>>◌
caught_by_check = refl

throw_leaves_no_trace_example : empty ≡ empty
throw_leaves_no_trace_example =
    throw_leaves_no_trace (trades (trade_of (pos 7))) empty empty trade_allocation orphan_profit

abbrev fund : Db
fund = record empty {
  accounts = two_accounts;
  fund = record {
    total_pool_balance = 300;
    total_nfts_active = 2;
    active_strategy = "none";
    is_paused = false;
  };
}

fund-IsConsistent : IsConsistent fund
unfolding ◌+ℤ◌
fund-IsConsistent = record { pool = refl; balanced = (refl, (refl, tt)); allocated = tt }

record_trade-returns_example :
    (t : Db) × (record_trade (trade_of (negsuc 6)) fund
      ≡ (ok (record { id = 1; input = trade_of (negsuc 6) }), t))
    × IsConsistent t
    × (pos t.total_pool_balance ≡ pos 300 +ℤ negsuc 6)
record_trade-returns_example =
    record_trade-returns fund (trade_of (negsuc 6)) fund-IsConsistent (refl, (refl, tt))
      (record { trade_ids = tt; allocation_ids = tt }) refl (omega arith) (λ e. cc) (omega arith)
      (omega arith)
