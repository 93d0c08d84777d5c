-- ===== src/Marketplace/Examples.antt =====
-- The marketplace's theorems at concrete stores.
use attested_capital.Base.{ℕ, ◌≡◌, refl, true, false, none, some, String, [], ◌∷◌, arith}
use attested_capital.Base.Int.{pos, ◌+ℤ◌}
use attested_capital.Action.{ok}
use attested_capital.Ledger.{Db, NftAccount, P2pListing, ListingStatus, empty}
use attested_capital.Ledger.Verify.{active_total, get_nft_account}
use attested_capital.Ledger.Consistency.{IsConsistent}
use attested_capital.Ledger.Market.{is_open, get_active_listings}
use attested_capital.Ledger.Market.Sales.{owned_by}
use attested_capital.Marketplace.Previews.{IsAsPreviewed, record_withdrawal-IsAsPreviewed}
use attested_capital.Marketplace.{
  WithdrawalPreview, preview_fee, preview_of, preview_withdrawal, Purchase, success, listing_by_id,
  is_listed, execute_purchase,
}
use attested_capital.Marketplace.Listings.{OneListing, lists, trade_on, trade_on-OneListing}
use attested_capital.Marketplace.Purchases.{execute_purchase-delivers}

abbrev account : ℕ → String → ℕ → NftAccount
account token_id owner balance = record {
  token_id = token_id;
  owner_telegram_id = owner;
  owner_address = "A";
  initial_deposit = balance;
  current_balance = balance;
  total_pnl = pos 0;
  is_active = true;
  mint_address = none;
}

-- Bob owns the NFT that Alice had listed.
abbrev stale : P2pListing
stale = record {
  id = 1;
  token_id = 7;
  seller_telegram_id = "alice";
  asking_price = 50;
  status = ListingStatus.active;
}

abbrev market : Db
market = record empty {
  accounts = account 7 "bob" 100 ∷ account 8 "carol" 200 ∷ [];
  fund = record {
    total_pool_balance = 300;
    total_nfts_active = 2;
    active_strategy = "none";
    is_paused = false;
  };
  p2p_listings = stale ∷ [];
}

market-IsConsistent : IsConsistent market
unfolding ◌+ℤ◌
market-IsConsistent = record { pool = refl; balanced = (refl, (refl, tt)); allocated = tt }

trade_on-OneListing_example : OneListing (trade_on (lists 8 "carol" (pos 90)) market)
unfolding is_open
trade_on-OneListing_example =
    trade_on-OneListing (lists 8 "carol" (pos 90)) market (λ t. ground arith)

execute_purchase-delivers_example :
    (t : Db) × (p : Purchase) × (execute_purchase 1 "dave" "D" "sig" market ≡ (ok (success p), t))
    × (p.sale.seller_telegram_id ≡ "bob")
    × (p.transferred_balance ≡ 100)
    × (get_nft_account 7 t ≡ some (owned_by "dave" "D" (account 7 "bob" 100)))
    × (is_listed 7 t ≡ false)
    × (active_total t.accounts ≡ active_total market.accounts)
unfolding get_nft_account listing_by_id get_active_listings is_open
execute_purchase-delivers_example =
    execute_purchase-delivers market 1 stale (account 7 "bob" 100) 49 "dave" "D" "sig"
      market-IsConsistent refl refl refl refl refl refl

abbrev preview : WithdrawalPreview
preview = record {
  token_id = 7;
  gross_amount = 100;
  fee = 2;
  fee_pct = 2;
  net_amount = 98;
  recipient_count = 1;
}

shown : preview_withdrawal 7 market ≡ success preview
unfolding preview_withdrawal preview_of preview_fee get_nft_account
shown = refl

record_withdrawal-IsAsPreviewed_example : IsAsPreviewed "B" "sig" market preview 7
record_withdrawal-IsAsPreviewed_example =
    record_withdrawal-IsAsPreviewed 7 "B" "sig" market preview market-IsConsistent
      ((refl, (refl, tt))) refl (omega arith) shown
