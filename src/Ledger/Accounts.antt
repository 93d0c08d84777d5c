-- ===== src/Ledger/Accounts.antt =====
-- panthers-fund/src/database/ledger.ts: account rows, deposits and ownership.
use attested_capital.Base.{
  ℕ, zero, suc, ◌+◌, ◌==◌, ltb, leb, ◌&&◌, String, true, Option, none, some, List, [], ◌∷◌, ◌++◌,
  update, if◌then◌else◌,
}
use attested_capital.Base.Int.{ℤ, pos, negsuc}
use attested_capital.Action.{
  ok, err, pure, gets, or_throw, modify, require, transaction, ◌>>=◌, ◌>>◌,
}
use attested_capital.Ledger.{
  NftAccount, FundAddition, token_id_range, not_positive, constraint, Ledger, next_id,
}
use attested_capital.Ledger.Verify.{
  get_nft_account, guard_not_paused, guard_account_active, verify_invariants,
}

-- The amount that passes `if (amount <= 0) throw`.
abbrev pub positive : ℤ → Option ℕ
positive (pos zero) = none
positive (pos (suc n)) = some (suc n)
positive (negsuc n) = none

-- A table with an INTEGER PRIMARY KEY is kept in the order of the key; a key that is there is refused.
unfoldable pub insert_row : NftAccount → List NftAccount → Option (List NftAccount)
insert_row row [] = some (row ∷ [])
insert_row row (a ∷ rest) =
    if ltb row.token_id a.token_id
    then some (row ∷ a ∷ rest)
    else if row.token_id == a.token_id
    then none
    else elim (insert_row row rest) [ none ↦ none | some rows ↦ some (a ∷ rows) ]

unfoldable pub insert_account : NftAccount → Ledger Unit
insert_account row db =
    elim (if leb 1 row.token_id && leb row.token_id 500 then insert_row row db.accounts else none) [
      | none ↦ (err constraint, db)
      | some rows ↦ (ok tt, record db { accounts = rows })
    ]

-- `total_pool_balance = total_pool_balance + ?`
unfoldable pub add_to_pool : ℕ → Ledger Unit
add_to_pool amount = modify λ db. record db {
  fund = record db.fund { total_pool_balance = db.total_pool_balance + amount };
}

unfoldable pub create_nft_account :
    ℕ → ℕ → String → String → ℤ → Option String → Ledger (Option NftAccount)
create_nft_account max_nfts token_id owner_telegram_id owner_address deposit mint_address = do
  guard_not_paused
  require (leb 1 token_id && leb token_id max_nfts) token_id_range
  cents ← or_throw (positive deposit) not_positive
  transaction do
    insert_account (record {
      token_id = token_id;
      owner_telegram_id = owner_telegram_id;
      owner_address = owner_address;
      initial_deposit = cents;
      current_balance = cents;
      total_pnl = pos 0;
      is_active = true;
      mint_address = mint_address;
    })
    add_to_pool cents
    modify
        λ db. record db { fund = record db.fund { total_nfts_active = db.total_nfts_active + 1 } }
    verify_invariants
    gets (get_nft_account token_id)

-- `UPDATE nft_accounts SET … WHERE token_id = ?`
abbrev pub update_account : ℕ → (NftAccount → NftAccount) → List NftAccount → List NftAccount
update_account token_id = update (λ a. a.token_id == token_id)

unfoldable pub set_mint_address : ℕ → String → Ledger Unit
set_mint_address token_id mint = modify λ db. record db {
  accounts = update_account token_id (λ a. record a { mint_address = some mint }) db.accounts;
}

unfoldable pub credit : ℕ → NftAccount → NftAccount
credit amount a = record a {
  initial_deposit = a.initial_deposit + amount;
  current_balance = a.current_balance + amount;
}

unfoldable pub add_funds_to_nft : ℕ → ℤ → String → Ledger FundAddition
add_funds_to_nft token_id amount tx_hash = do
  guard_not_paused
  cents ← or_throw (positive amount) not_positive
  transaction do
    guard_account_active token_id
    modify λ db. record db { accounts = update_account token_id (credit cents) db.accounts }
    add_to_pool cents
    addition ← gets λ db. record {
      id = next_id db.fund_additions;
      token_id = token_id;
      amount = cents;
      tx_hash = tx_hash;
    }
    modify λ db. record db { fund_additions = db.fund_additions ++ addition ∷ [] }
    verify_invariants
    pure addition

unfoldable pub transfer_nft_ownership : ℕ → String → String → Ledger Unit
transfer_nft_ownership token_id owner address = modify λ db. record db {
  accounts =
      update_account token_id (λ a. record a { owner_telegram_id = owner; owner_address = address })
        db.accounts;
}
