-- ===== src/Marketplace/Purchases.antt =====
-- A purchase delivers the NFT, whoever owns it by then.
use attested_capital.Base.{
  ℕ, suc, ◌==◌, ◌&&◌, ◌≡◌, refl, ap, true, false, str_eq, String, none, some, List, [], ◌∷◌, find,
  filter, update, arith,
}
use attested_capital.Action.{ok, ◌>>=◌}
use attested_capital.Ledger.{Db, NftAccount, P2pListing, ListingStatus}
use attested_capital.Ledger.Verify.{get_nft_account, active_total}
use attested_capital.Ledger.Market.{is_open, set_status, get_active_listings}
use attested_capital.Ledger.Market.Sales.{owned_by, sale_of, sold, record_p2p_sale-eq}
use attested_capital.Ledger.Rows.{active_total-update, find-update}
use attested_capital.Ledger.Consistency.{IsConsistent}
use attested_capital.Marketplace.{
  Purchase, success, listing_of, listing_by_id, is_listed, execute_purchase,
}

unlisted-sold :
    (k : ℕ) (rows : List P2pListing)
    → find
        (λ l. l.token_id == k)
        (filter is_open
          (update (λ l. l.token_id == k && is_open l) (set_status ListingStatus.sold) rows))
      ≡ none
unfolding is_open set_status
unlisted-sold k [] = refl
unlisted-sold k (l ∷ rows) = ground (arith, unlisted-sold k rows)

module _ (db : Db) (listing_id : ℕ) (l : P2pListing) (a : NftAccount) (price : ℕ)
    (buyer address signature : String) where
  abbrev bought : Purchase
  bought = record {
    sale = sale_of db a l.token_id buyer address (suc price) signature;
    transferred_balance = a.current_balance;
  }

  execute_purchase-eq :
      IsConsistent db
      → db.is_paused ≡ false
      → listing_by_id listing_id db ≡ some l
      → str_eq l.seller_telegram_id buyer ≡ false
      → get_nft_account l.token_id db ≡ some a
      → a.is_active ≡ true
      → l.asking_price ≡ suc price
      → execute_purchase listing_id buyer address signature db
        ≡ (ok (success bought), sold db l.token_id buyer address bought.sale)
  unfolding execute_purchase ◌>>=◌
  execute_purchase-eq c running listed other found on priced =
      ground
        (arith, record_p2p_sale-eq db l.token_id a buyer address price signature c running found on)

  -- In a consistent, running ledger a purchase of an open listing at a positive price, by another
  -- than its seller, succeeds whenever the NFT is active, whoever owns it by then: the sale names
  -- the owner of that moment as the seller, the NFT is the buyer's with its balance untouched, it
  -- has no open listing left, and the active balances sum to what they did.
  pub execute_purchase-delivers :
      IsConsistent db
      → db.is_paused ≡ false
      → listing_by_id listing_id db ≡ some l
      → str_eq l.seller_telegram_id buyer ≡ false
      → get_nft_account l.token_id db ≡ some a
      → a.is_active ≡ true
      → l.asking_price ≡ suc price
      → (t : Db) × (p : Purchase) × (execute_purchase listing_id buyer address signature db
          ≡ (ok (success p), t))
        × (p.sale.seller_telegram_id ≡ a.owner_telegram_id)
        × (p.transferred_balance ≡ a.current_balance)
        × (get_nft_account l.token_id t ≡ some (owned_by buyer address a))
        × (is_listed l.token_id t ≡ false)
        × (active_total t.accounts ≡ active_total db.accounts)
  unfolding sold get_nft_account is_listed listing_of get_active_listings
  execute_purchase-delivers c running listed other found on priced = (
    _,
    bought,
    execute_purchase-eq c running listed other found on priced,
    refl,
    refl,
    find-update l.token_id (owned_by buyer address) a db.accounts (λ x. refl) found,
    ap (λ o. elim o [ none ↦ false | some x ↦ true ]) (unlisted-sold l.token_id db.p2p_listings),
    active_total-update (λ x. x.token_id == l.token_id) (owned_by buyer address) (λ x. (refl, refl))
        db.accounts,
  )
