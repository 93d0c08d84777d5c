-- ===== src/Ledger/Market/Sales.antt =====
-- A sale moves an NFT to its buyer and closes its listings.
use attested_capital.Base.{
  ℕ, suc, ◌==◌, ◌&&◌, ◌≡◌, refl, ◌∙◌, true, false, String, some, [], ◌∷◌, ◌++◌, update,
}
use attested_capital.Base.Int.{pos}
use attested_capital.Action.{ok, gets, modify, or_throw, pure}
use attested_capital.Ledger.{Db, NftAccount, P2pSale, ListingStatus, next_id}
use attested_capital.Ledger.Verify.{get_nft_account}
use attested_capital.Ledger.Accounts.{transfer_nft_ownership, update_account}
use attested_capital.Ledger.Market.{is_open, set_status, mark_sold, record_p2p_sale}
use attested_capital.Ledger.Rows.{active_total-update, active-All-update}
use attested_capital.Action.Runs.{run_bind, run_then, run_transaction}
use attested_capital.Ledger.Guards.{guard_not_paused-passes, guard_account_active-passes}
use attested_capital.Ledger.Consistency.{IsConsistent, IsBalanced, verify_invariants-passes}

-- The account in its new owner's hands.
abbrev pub owned_by : String → String → NftAccount → NftAccount
owned_by owner address a = record a { owner_telegram_id = owner; owner_address = address }

abbrev pub sale_of : Db → NftAccount → ℕ → String → String → ℕ → String → P2pSale
sale_of db a token_id buyer address price signature = record {
  id = next_id db.p2p_sales;
  token_id = token_id;
  seller_telegram_id = a.owner_telegram_id;
  buyer_telegram_id = buyer;
  buyer_address = address;
  sale_price = price;
  tx_signature = signature;
}

-- The store that a sale leaves.
unfoldable pub sold : Db → ℕ → String → String → P2pSale → Db
sold db token_id buyer address sale = record db {
  accounts = update_account token_id (owned_by buyer address) db.accounts;
  p2p_sales = db.p2p_sales ++ sale ∷ [];
  p2p_listings =
      update (λ l. l.token_id == token_id && is_open l) (set_status ListingStatus.sold)
        db.p2p_listings;
}

sold-IsConsistent :
    (db : Db) (token_id : ℕ) (buyer address : String) (sale : P2pSale)
    → IsConsistent db
    → IsConsistent (sold db token_id buyer address sale)
unfolding sold
sold-IsConsistent db token_id buyer address sale c = record {
  pool =
      active_total-update (λ a. a.token_id == token_id) (owned_by buyer address) (λ a. (refl, refl))
        db.accounts
      ∙ c.pool;
  balanced =
      active-All-update IsBalanced (λ a. a.token_id == token_id) (owned_by buyer address)
        (λ a. (refl, λ h. h)) db.accounts c.balanced;
  allocated = c.allocated;
}

module _ (db : Db) (token_id : ℕ) (a : NftAccount) (buyer address : String) (price : ℕ)
    (signature : String) where
  pub record_p2p_sale-eq :
      IsConsistent db
      → db.is_paused ≡ false
      → get_nft_account token_id db ≡ some a
      → a.is_active ≡ true
      → (let sale = sale_of db a token_id buyer address (suc price) signature in
          record_p2p_sale token_id buyer address (pos (suc price)) signature db
          ≡ (ok sale, sold db token_id buyer address sale))
  unfolding record_p2p_sale transfer_nft_ownership mark_sold sold gets modify or_throw pure
  record_p2p_sale-eq c running found on =
      let sale = sale_of db a token_id buyer address (suc price) signature in
      run_then _ _ (guard_not_paused-passes db running) (
        run_bind _ _ refl (
          run_transaction _ (
            run_bind _ _ (guard_account_active-passes db token_id a found on) (
              run_bind _ _ refl (
                run_then _ _ refl (
                  run_then _ _ refl (
                    run_then _ _ refl (
                      run_then _ _
                        (verify_invariants-passes (sold db token_id buyer address sale)
                          (sold-IsConsistent db token_id buyer address sale c))
                        refl))))))))
