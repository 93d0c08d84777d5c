-- ===== src/Marketplace/Listings.antt =====
-- The marketplace lists an NFT at most once at a time, and only for its owner.
use attested_capital.Base.{
  ℕ, ◌+◌, ◌==◌, ◌≤◌, ◌≡◌, ◌≢◌, ◌&&◌, refl, Bool, String, Option, none, List, [], ◌∷◌, ◌++◌, filter,
  find, update, total, if◌then◌else◌, arith,
}
use attested_capital.Base.Int.{ℤ}
use attested_capital.Action.{◌>>=◌, ◌>>◌, after, modify}
use attested_capital.Action.Ensures.{
  Keeps, Keeps-modify, Keeps-then, Keeps-bind, Keeps-or_throw, Keeps-body, Keeps-gets, Keeps-pure,
}
use attested_capital.Ledger.Guards.{guard_not_paused-Keeps, guard_account_active-Keeps}
use attested_capital.Ledger.Consistency.{verify_invariants-Keeps}
use attested_capital.Ledger.Accounts.{transfer_nft_ownership}
use attested_capital.Ledger.{Db, P2pListing, ListingStatus}
use attested_capital.Ledger.Verify.{guard_not_paused, guard_account_active, guard_account_exists}
use attested_capital.Ledger.Market.{
  is_open, set_status, create_p2p_listing, cancel_p2p_listing, mark_sold, record_p2p_sale,
  get_active_listings,
}
use attested_capital.Marketplace.{
  listing_of, is_listed, create_listing, cancel_listing, execute_purchase, propose_swap,
  accept_swap, reject_swap, cancel_swap, get_swap_requests_view,
}
use attested_capital.Marketplace.Swaps.{
  propose_swap-listings, accept_swap-listings, reject_swap-listings, cancel_swap-listings,
  view-listings,
}

-- How many open listings an NFT has.
abbrev pub open_count : ℕ → List P2pListing → ℕ
open_count token_id = total (λ l. if is_open l && l.token_id == token_id then 1 else 0)

abbrev pub OneListing : Db → Type 0
OneListing db = (token_id : ℕ) → open_count token_id db.p2p_listings ≤ 1

-- Without an open listing of the NFT in sight there is none.
unlisted-open_count :
    (token_id : ℕ) (rows : List P2pListing)
    → find (λ l. l.token_id == token_id) (filter is_open rows) ≡ none
    → open_count token_id rows ≡ 0
unlisted-open_count token_id [] h = refl
unlisted-open_count token_id (l ∷ rows) h = ground (arith, unlisted-open_count token_id rows)

open_count-append :
    (token_id : ℕ) (rows : List P2pListing) (l : P2pListing)
    → open_count token_id (rows ++ l ∷ [])
      ≤ open_count token_id rows + (if l.token_id == token_id then 1 else 0)
open_count-append token_id [] l = ground arith
open_count-append token_id (x ∷ rows) l = omega (arith, open_count-append token_id rows l)

-- The ledger adds at most one row, of the NFT that is listed.
create_p2p_listing-open_count :
    (t token_id : ℕ) (price : ℤ) (db : Db)
    → open_count t (after (create_p2p_listing token_id price db)).p2p_listings
      ≤ open_count t db.p2p_listings + (if token_id == t then 1 else 0)
unfolding create_p2p_listing guard_not_paused guard_account_active guard_account_exists ◌>>=◌ ◌>>◌
create_p2p_listing-open_count t token_id price db = grind (arith, open_count-append)

-- The marketplace lets it add one only where there is none.
create_listing-OneListing :
    (token_id : ℕ) (seller : String) (price : ℤ) (db : Db)
    → OneListing db
    → OneListing (after (create_listing token_id seller price db))
unfolding create_listing is_listed listing_of get_active_listings ◌>>=◌
create_listing-OneListing token_id seller price db h t = grind (
  arith,
  h t,
  unlisted-open_count token_id db.p2p_listings,
  create_p2p_listing-open_count t token_id price db,
)

-- A row that is sold or cancelled is one open listing less.
open_count-update :
    (t : ℕ) (p : P2pListing → Bool) (status : ListingStatus) (rows : List P2pListing)
    → status ≢ ListingStatus.active
    → open_count t (update p (set_status status) rows) ≤ open_count t rows
unfolding set_status is_open
open_count-update t p status [] n = omega arith
open_count-update t p ListingStatus.active (l ∷ rows) n = absurd (n refl)
open_count-update t p ListingStatus.sold (l ∷ rows) n =
    ground (arith, open_count-update t p ListingStatus.sold rows n)
open_count-update t p ListingStatus.cancelled (l ∷ rows) n =
    ground (arith, open_count-update t p ListingStatus.cancelled rows n)

cancel_listing-OneListing :
    (listing_id : ℕ) (seller : String) (db : Db)
    → OneListing db
    → OneListing (after (cancel_listing listing_id seller db))
unfolding cancel_listing cancel_p2p_listing modify ◌>>◌
cancel_listing-OneListing listing_id seller db h t = grind (
  arith,
  h t,
  open_count-update t (λ l. l.id == listing_id) ListingStatus.cancelled db.p2p_listings,
)

-- At most `n` open listings of `t`.
abbrev AtMost : ℕ → ℕ → Db → Type 0
AtMost t n db = open_count t db.p2p_listings ≤ n

mark_sold-AtMost : (t n token_id : ℕ) → Keeps (AtMost t n) (mark_sold token_id)
unfolding mark_sold
mark_sold-AtMost t n token_id = Keeps-modify _ (λ s h. omega (
  arith,
  open_count-update t (λ l. l.token_id == token_id && is_open l) ListingStatus.sold s.p2p_listings
      (λ e. cc),
))

record_p2p_sale-AtMost :
    (t n token_id : ℕ) (buyer address : String) (price : ℤ) (signature : String)
    → Keeps (AtMost t n) (record_p2p_sale token_id buyer address price signature)
unfolding record_p2p_sale transfer_nft_ownership
record_p2p_sale-AtMost t n token_id buyer address price signature =
    Keeps-then _ _ guard_not_paused-Keeps (
      Keeps-bind _ _ (Keeps-or_throw _ _) λ cents. Keeps-body _ (
        Keeps-bind _ _ (guard_account_active-Keeps token_id) λ account.
          Keeps-bind _ _ (Keeps-gets _) λ sale. Keeps-then _ _ (Keeps-modify _ (λ s h. h)) (
            Keeps-then _ _ (Keeps-modify _ (λ s h. h)) (
              Keeps-then _ _ (mark_sold-AtMost t n token_id)
                (Keeps-then _ _ (verify_invariants-Keeps _ (λ db h. h)) (Keeps-pure _))))))

execute_purchase-OneListing :
    (listing_id : ℕ) (buyer address signature : String) (db : Db)
    → OneListing db
    → OneListing (after (execute_purchase listing_id buyer address signature db))
unfolding execute_purchase ◌>>=◌
execute_purchase-OneListing listing_id buyer address signature db h t =
    grind (arith, h t, sale_at t (open_count t db.p2p_listings) db)
  where
    sale_at :
        (t n : ℕ) (db : Db) (token_id : ℕ) (price : ℤ)
        → AtMost t n db
        → AtMost t n (after (record_p2p_sale token_id buyer address price signature db))
    sale_at t n db token_id price a =
        (record_p2p_sale-AtMost t n token_id buyer address price signature).at db a

pub data MarketCall : Type 0 where
  lists : ℕ → String → ℤ → MarketCall
  unlists : ℕ → String → MarketCall
  buys : ℕ → String → String → String → MarketCall
  proposes : ℕ → ℕ → String → ℕ → MarketCall
  accepts : ℕ → ℕ → String → MarketCall
  rejects cancels : ℕ → String → MarketCall
  views_swaps : ℕ → Option String → MarketCall

unfoldable pub trade_on : MarketCall → Db → Db
trade_on (lists token_id seller price) db = after (create_listing token_id seller price db)
trade_on (unlists listing_id seller) db = after (cancel_listing listing_id seller db)
trade_on (buys listing_id buyer address signature) db =
    after (execute_purchase listing_id buyer address signature db)
trade_on (proposes now proposer_token proposer target_token) db =
    after (propose_swap now proposer_token proposer target_token db)
trade_on (accepts now swap_id accepter) db = after (accept_swap now swap_id accepter db)
trade_on (rejects swap_id rejecter) db = after (reject_swap swap_id rejecter db)
trade_on (cancels swap_id canceller) db = after (cancel_swap swap_id canceller db)
trade_on (views_swaps now user) db = after (get_swap_requests_view now user db)

abbrev OnceEach : List P2pListing → Type 0
OnceEach rows = (token_id : ℕ) → open_count token_id rows ≤ 1

-- No call of the marketplace, of its listings, its purchases or its swaps, gives an NFT a second
-- open listing, whether it succeeds, is refused or throws.
pub trade_on-OneListing : (c : MarketCall) (db : Db) → OneListing db → OneListing (trade_on c db)
unfolding trade_on
trade_on-OneListing (lists token_id seller price) db h =
    create_listing-OneListing token_id seller price db h
trade_on-OneListing (unlists listing_id seller) db h =
    cancel_listing-OneListing listing_id seller db h
trade_on-OneListing (buys listing_id buyer address signature) db h =
    execute_purchase-OneListing listing_id buyer address signature db h
trade_on-OneListing (proposes now proposer_token proposer target_token) db h =
    propose_swap-listings OnceEach now proposer_token proposer target_token db h
trade_on-OneListing (accepts now swap_id accepter) db h =
    accept_swap-listings OnceEach now swap_id accepter db h
trade_on-OneListing (rejects swap_id rejecter) db h =
    (reject_swap-listings OnceEach swap_id rejecter).at db h
trade_on-OneListing (cancels swap_id canceller) db h =
    (cancel_swap-listings OnceEach swap_id canceller).at db h
trade_on-OneListing (views_swaps now user) db h = (view-listings OnceEach now user).at db h
