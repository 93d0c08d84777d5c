-- ===== src/Ledger/Market.antt =====
-- panthers-fund/src/database/ledger.ts: peer-to-peer sales and listings.
pub mod Sales
use attested_capital.Base.{
  ℕ, ◌==◌, ◌&&◌, String, Bool, true, false, List, [], ◌∷◌, ◌++◌, filter, update,
}
use attested_capital.Base.Int.{ℤ}
use attested_capital.Action.{pure, gets, or_throw, modify, transaction, ◌>>=◌, ◌>>◌}
use attested_capital.Ledger.{Db, P2pSale, P2pListing, ListingStatus, not_positive, Ledger, next_id}
use attested_capital.Ledger.Verify.{guard_not_paused, guard_account_active, verify_invariants}
use attested_capital.Ledger.Accounts.{positive, transfer_nft_ownership}

unfoldable pub is_open : P2pListing → Bool
is_open l = elim l.status [ ListingStatus.active ↦ true | _ ↦ false ]

unfoldable pub set_status : ListingStatus → P2pListing → P2pListing
set_status status l = record l { status = status }

-- `SET status = 'sold' WHERE token_id = ? AND status = 'active'`
unfoldable pub mark_sold : ℕ → Ledger Unit
mark_sold token_id = modify λ db. record db {
  p2p_listings =
      update (λ l. l.token_id == token_id && is_open l) (set_status ListingStatus.sold)
        db.p2p_listings;
}

unfoldable pub record_p2p_sale : ℕ → String → String → ℤ → String → Ledger P2pSale
record_p2p_sale token_id buyer address sale_price tx_signature = do
  guard_not_paused
  price ← or_throw (positive sale_price) not_positive
  transaction do
    account ← guard_account_active token_id
    sale ← gets λ db. record {
      id = next_id db.p2p_sales;
      token_id = token_id;
      seller_telegram_id = account.owner_telegram_id;
      buyer_telegram_id = buyer;
      buyer_address = address;
      sale_price = price;
      tx_signature = tx_signature;
    }
    modify λ db. record db { p2p_sales = db.p2p_sales ++ sale ∷ [] }
    transfer_nft_ownership token_id buyer address
    mark_sold token_id
    verify_invariants
    pure sale

unfoldable pub create_p2p_listing : ℕ → ℤ → Ledger P2pListing
create_p2p_listing token_id asking_price = do
  guard_not_paused
  price ← or_throw (positive asking_price) not_positive
  account ← guard_account_active token_id
  listing ← gets λ db. record {
    id = next_id db.p2p_listings;
    token_id = token_id;
    seller_telegram_id = account.owner_telegram_id;
    asking_price = price;
    status = ListingStatus.active;
  }
  modify λ db. record db { p2p_listings = db.p2p_listings ++ listing ∷ [] }
  pure listing

unfoldable pub cancel_p2p_listing : ℕ → Ledger Unit
cancel_p2p_listing listing_id = modify λ db. record db {
  p2p_listings =
      update (λ l. l.id == listing_id) (set_status ListingStatus.cancelled) db.p2p_listings;
}

-- The rows with `status = 'active'`; the callers look rows up by key, so their order is left open.
unfoldable pub get_active_listings : Db → List P2pListing
get_active_listings db = filter is_open db.p2p_listings
