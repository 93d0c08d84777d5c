-- ===== src/Marketplace.antt =====
-- panthers-fund/src/marketplace/marketplace.ts: listings, purchases, withdrawal previews and swaps
-- on top of the ledger. The functions answer with a value or a refusal; what the ledger throws
-- passes through the first three, and is caught and answered by the swap functions.
pub mod Swaps
pub mod Listings
pub mod Purchases
pub mod Previews
mod Examples
use attested_capital.Base.{
  ℕ, ◌-◌, ◌*◌, ◌/◌, ◌+◌, ◌==◌, ltb, leb, not, ◌||◌, str_eq, String, Bool, true, false, Option, none,
  some, List, [], ◌∷◌, find, filter, length, if◌then◌else◌,
}
use attested_capital.Base.Int.{ℤ, pos, negsuc}
use attested_capital.Action.{Result, ok, err, pure, gets, ◌>>=◌, ◌>>◌}
use attested_capital.Ledger.{
  Db, NftAccount, P2pSale, P2pListing, SwapRequest, Error, Ledger, active_accounts,
}
use attested_capital.Ledger.Verify.{get_nft_account}
use attested_capital.Ledger.Accounts.{positive}
use attested_capital.Ledger.Market.{
  record_p2p_sale, create_p2p_listing, cancel_p2p_listing, get_active_listings,
}
use attested_capital.Ledger.Swaps.{
  create_swap_request, get_swap_request, execute_swap, reject_swap_request, cancel_swap_request,
  expire_old_swap_requests, is_pending,
}

pub data Refusal : Type 0 where
  no_account inactive not_yours already_listed bad_price : Refusal
  no_listing only_seller own_nft no_longer_active zero_balance : Refusal
  no_swap only_target : Refusal
  caught : Error → Refusal

pub data Reply (A : Type 0) : Type 0 where
  success : A → Reply A
  refused : Refusal → Reply A

-- Goes on unless a test refuses.
abbrev pub refuse_if : {A : Type 0} → Bool → Refusal → Ledger (Reply A) → Ledger (Reply A)
refuse_if true r next db = (ok (refused r), db)
refuse_if false r next db = next db

-- Goes on with a row, unless it is missing.
abbrev pub with_row :
    {R A : Type 0} → Option R → Refusal → (R → Ledger (Reply A)) → Ledger (Reply A)
with_row none r next db = (ok (refused r), db)
with_row (some row) r next db = next row db

unfoldable pub listing_of : ℕ → Db → Option P2pListing
listing_of token_id db = find (λ l. l.token_id == token_id) (get_active_listings db)

unfoldable pub listing_by_id : ℕ → Db → Option P2pListing
listing_by_id listing_id db = find (λ l. l.id == listing_id) (get_active_listings db)

-- `askingPriceCents <= 0`
abbrev pub not_above_zero : ℤ → Bool
not_above_zero price = elim (positive price) [ none ↦ true | some cents ↦ false ]

unfoldable pub is_listed : ℕ → Db → Bool
is_listed token_id db = elim (listing_of token_id db) [ none ↦ false | some l ↦ true ]

unfoldable pub create_listing : ℕ → String → ℤ → Ledger (Reply P2pListing)
create_listing token_id seller asking_price db =
    with_row (get_nft_account token_id db) no_account
      (λ account. refuse_if (not account.is_active) inactive (
        refuse_if (not (str_eq account.owner_telegram_id seller)) not_yours (
          refuse_if (is_listed token_id db) already_listed (
            refuse_if (not_above_zero asking_price) bad_price
              do listing ← create_p2p_listing token_id asking_price; pure (success listing)))))
      db

unfoldable pub cancel_listing : ℕ → String → Ledger (Reply Unit)
cancel_listing listing_id seller db =
    with_row (listing_by_id listing_id db) no_listing
      (λ listing.
        refuse_if (not (str_eq listing.seller_telegram_id seller)) only_seller
          do cancel_p2p_listing listing_id; pure (success tt))
      db

pub record Purchase : Type 0 where
  pub sale : P2pSale
  pub transferred_balance : ℕ

unfoldable pub execute_purchase : ℕ → String → String → String → Ledger (Reply Purchase)
execute_purchase listing_id buyer buyer_address tx_signature db =
    with_row (listing_by_id listing_id db) no_listing
      (λ listing. refuse_if (str_eq listing.seller_telegram_id buyer) own_nft (
        with_row (get_nft_account listing.token_id db) no_longer_active (λ account.
          refuse_if (not account.is_active) no_longer_active do
            sale ←
                record_p2p_sale listing.token_id buyer buyer_address (pos listing.asking_price)
                  tx_signature
            pure
                (success (record { sale = sale; transferred_balance = account.current_balance })))))
      db

pub record ListingWithDetails : Type 0 where
  pub listing : P2pListing
  pub account : NftAccount
  -- `valueRatio` in hundredths, rounded half up as `Math.round` does.
  pub value_ratio : ℕ

-- `Math.round((balance / price) * 100)`, and 0 without a price.
unfoldable pub value_ratio : ℕ → ℕ → ℕ
value_ratio balance price = if ltb 0 price then (balance * 100 * 2 + price) / (price * 2) else 0

unfoldable pub enrich : Db → List P2pListing → List ListingWithDetails
enrich db [] = []
enrich db (l ∷ rest) = elim (get_nft_account l.token_id db) [
  | none ↦ enrich db rest
  | some account ↦
      if account.is_active
      then record {
        listing = l;
        account = account;
        value_ratio = value_ratio account.current_balance l.asking_price;
      }
        ∷ enrich db rest
      else enrich db rest
]

-- `totalListings` is the length of this list.
unfoldable pub get_marketplace_view : Db → List ListingWithDetails
get_marketplace_view db = enrich db (get_active_listings db)

pub record WithdrawalPreview : Type 0 where
  pub token_id : ℕ
  pub gross_amount : ℕ
  pub fee : ℕ
  pub fee_pct : ℕ
  pub net_amount : ℕ
  pub recipient_count : ℕ

-- `feePct`
abbrev pub fee_pct : ℕ
fee_pct = 2

-- `Math.trunc(account.current_balance * feePct / 100)`
unfoldable pub preview_fee : ℕ → ℕ
preview_fee balance = balance * fee_pct / 100

unfoldable pub preview_of : ℕ → NftAccount → Db → WithdrawalPreview
preview_of token_id account db = record {
  token_id = token_id;
  gross_amount = account.current_balance;
  fee = preview_fee account.current_balance;
  fee_pct = fee_pct;
  net_amount = account.current_balance - preview_fee account.current_balance;
  recipient_count = length (active_accounts db.accounts) - 1;
}

unfoldable pub preview_withdrawal : ℕ → Db → Reply WithdrawalPreview
preview_withdrawal token_id db = elim (get_nft_account token_id db) [
  | none ↦ refused no_account
  | some account ↦
      if not account.is_active
      then refused inactive
      else if account.current_balance == 0
      then refused zero_balance
      else success (preview_of token_id account db)
]

-- `try { … } catch (err) { return { success: false, error: msg } }`
abbrev pub catch_all : {A : Type 0} → Result Error A × Db → Result Error (Reply A) × Db
catch_all (ok a, db) = (ok (success a), db)
catch_all (err e, db) = (ok (refused (caught e)), db)

unfoldable pub answered : {A : Type 0} → Ledger A → Ledger (Reply A)
answered m db = catch_all (m db)

unfoldable pub propose_swap : ℕ → ℕ → String → ℕ → Ledger (Reply SwapRequest)
propose_swap now proposer_token proposer target_token db =
    with_row (get_nft_account target_token db) no_account
      (λ target. refuse_if (not target.is_active) inactive (
        answered (
          create_swap_request now proposer_token proposer target_token target.owner_telegram_id
            24)))
      db

unfoldable pub accept_swap : ℕ → ℕ → String → Ledger (Reply (Option SwapRequest))
accept_swap now swap_id accepter db =
    with_row (get_swap_request swap_id db) no_swap
      (λ swap.
        refuse_if (not (str_eq swap.target_telegram_id accepter)) only_target
          (answered (execute_swap now swap_id)))
      db

unfoldable pub reject_swap : ℕ → String → Ledger (Reply Unit)
reject_swap swap_id rejecter = answered (reject_swap_request swap_id rejecter)

unfoldable pub cancel_swap : ℕ → String → Ledger (Reply Unit)
cancel_swap swap_id canceller = answered (cancel_swap_request swap_id canceller)

-- Stale requests are expired first; then the pending ones are listed, of one user or of all.
unfoldable pub get_swap_requests_view : ℕ → Option String → Ledger (List SwapRequest)
get_swap_requests_view now user = do
  _ ← expire_old_swap_requests now
  gets λ db. elim user [
    | none ↦ filter is_pending db.p2p_swap_requests
    | some telegram_id ↦
        filter
          (λ s.
            if is_pending s
            then str_eq s.proposer_telegram_id telegram_id
              || str_eq s.target_telegram_id telegram_id
            else false)
          db.p2p_swap_requests
  ]
