-- ===== src/Ledger.antt =====
-- panthers-fund/src/database/schema.sql and panthers-fund/src/types/{nft-account,trade,errors}.ts:
-- the tables of the fund's ledger as records. Money is in cents. The columns that hold the time of
-- a write (`created_at`, `updated_at`) are left out where no operation reads them.
pub mod Verify
pub mod Accounts
pub mod Shares
pub mod Trades
pub mod Withdrawals
pub mod Market
pub mod Swaps
pub mod Rows
pub mod Guards
pub mod Consistency
pub mod Calls
mod Examples
use attested_capital.Base.{ℕ, String, Bool, Option, List, [], length, filter, suc, false}
use attested_capital.Base.Int.{ℤ}
use attested_capital.Action.{Action}

pub record NftAccount : Type 0 where
  pub token_id : ℕ
  pub owner_telegram_id : String
  pub owner_address : String
  pub initial_deposit : ℕ
  pub current_balance : ℕ
  pub total_pnl : ℤ
  pub is_active : Bool
  pub mint_address : Option String

pub record FundState : Type 0 where
  pub total_pool_balance : ℕ
  pub total_nfts_active : ℕ
  pub active_strategy : String
  pub is_paused : Bool

pub record FundAddition : Type 0 where
  pub id : ℕ
  pub token_id : ℕ
  pub amount : ℕ
  pub tx_hash : String

pub data Direction : Type 0 where
  long short : Direction

-- `Omit<Trade, 'id' | 'created_at'>`
pub record TradeInput : Type 0 where
  pub strategy : String
  pub pair : String
  pub direction : Direction
  pub entry_price : ℕ
  pub exit_price : ℕ
  pub amount : ℕ
  pub profit_loss : ℤ
  pub signature : String
  pub attestation : String

pub record Trade : Type 0 where
  pub id : ℕ
  pub input : TradeInput
  pub open input use *

pub record TradeAllocation : Type 0 where
  pub id : ℕ
  pub trade_id : ℕ
  pub token_id : ℕ
  pub pnl_share : ℤ
  pub balance_at_trade : ℕ
  pub pool_total_at_trade : ℕ

pub record Withdrawal : Type 0 where
  pub id : ℕ
  pub token_id : ℕ
  pub amount : ℕ
  pub fee : ℕ
  pub net_amount : ℕ
  pub dest_address : String
  pub tx_signature : String

pub record P2pSale : Type 0 where
  pub id : ℕ
  pub token_id : ℕ
  pub seller_telegram_id : String
  pub buyer_telegram_id : String
  pub buyer_address : String
  pub sale_price : ℕ
  pub tx_signature : String

pub data ListingStatus : Type 0 where
  active sold cancelled : ListingStatus

pub record P2pListing : Type 0 where
  pub id : ℕ
  pub token_id : ℕ
  pub seller_telegram_id : String
  pub asking_price : ℕ
  pub status : ListingStatus

pub data SwapStatus : Type 0 where
  pending accepted rejected cancelled expired : SwapStatus

pub record SwapRequest : Type 0 where
  pub id : ℕ
  pub proposer_token_id : ℕ
  pub proposer_telegram_id : String
  pub target_token_id : ℕ
  pub target_telegram_id : String
  pub status : SwapStatus
  pub expires_at : ℕ

pub record Db : Type 0 where
  pub accounts : List NftAccount
  pub fund : FundState
  pub open fund use *
  pub fund_additions : List FundAddition
  pub trades : List Trade
  pub trade_allocations : List TradeAllocation
  pub withdrawals : List Withdrawal
  pub p2p_sales : List P2pSale
  pub p2p_listings : List P2pListing
  pub p2p_swap_requests : List SwapRequest

-- What the methods throw. `constraint` is an SqliteError of a CHECK or a key; `diverges` stands
-- for a loop that never ends.
pub data Error : Type 0 where
  fund_paused : Error
  account_not_found : ℕ → Error
  pool_balance account_balance trade_allocation : Error
  token_id_range not_positive constraint diverges : Error
  swap_not_found swap_not_pending swap_expired not_owner target_not_owner self_swap : Error
  duplicate_swap not_proposer not_target : Error

abbrev pub Ledger : Type 0 → Type 0
Ledger A = Action Db Error A

-- A new database: the schema, and the row of `fund_state`.
abbrev pub empty : Db
empty = record {
  accounts = [];
  fund = record {
    total_pool_balance = 0;
    total_nfts_active = 0;
    active_strategy = "none";
    is_paused = false;
  };
  fund_additions = [];
  trades = [];
  trade_allocations = [];
  withdrawals = [];
  p2p_sales = [];
  p2p_listings = [];
  p2p_swap_requests = [];
}

-- An AUTOINCREMENT key of a table from which nothing is deleted.
abbrev pub next_id {ℓ} : {A : Type ℓ} → List A → ℕ
next_id rows = suc (length rows)

-- `getAllNFTAccounts(true)`: the rows with `is_active = 1`, in the order of their key.
abbrev pub active_accounts : List NftAccount → List NftAccount
active_accounts = filter (λ a. a.is_active)
