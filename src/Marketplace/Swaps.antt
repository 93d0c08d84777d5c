-- ===== src/Marketplace/Swaps.antt =====
-- panthers-fund/src/marketplace/marketplace.ts: the swap functions leave the listings alone.
use attested_capital.Base.{arith, ℕ, String, Bool, true, false, Option, none, some, List}
use attested_capital.Action.{Result, ok, err, ◌>>◌}
use attested_capital.Action.Ensures.{
  Keeps, keeps_rules, Keeps-body, Keeps-modify, Keeps-bind, Keeps-then, Keeps-gets,
}
use attested_capital.Ledger.{Db, P2pListing, SwapRequest, Error, Ledger}
use attested_capital.Ledger.Guards.{guard_not_paused-Keeps, guard_account_active-Keeps}
use attested_capital.Ledger.Consistency.{verify_invariants-Keeps}
use attested_capital.Ledger.Accounts.{transfer_nft_ownership}
use attested_capital.Ledger.Verify.{get_nft_account, verify_invariants}
use attested_capital.Ledger.Swaps.{
  get_swap_request, update_swap, check_expiry, exchange, execute_swap,
}
use attested_capital.Ledger.Swaps.Writes.{
  find_pending_swap-Keeps, update_swap-Keeps, cancel_others-Keeps, create_swap_request-Keeps,
  reject_swap_request-Keeps, cancel_swap_request-Keeps, expire_old_swap_requests-Keeps,
}
use attested_capital.Marketplace.{
  Refusal, no_account, no_swap, Reply, refuse_if, with_row, catch_all, answered, propose_swap,
  accept_swap, reject_swap, cancel_swap, get_swap_requests_view,
}

-- A property of the listings.
module _ (Q : List P2pListing → Type 0) where
  abbrev pub OfListings : Db → Type 0
  OfListings db = Q db.p2p_listings

  Keeps-answered : {A : Type 0} (m : Ledger A) → Keeps OfListings m → Keeps OfListings (answered m)
  unfolding answered
  Keeps-answered m k = record { at = λ s h. caught (m s) (k.at s h) }
    where
      caught : {A : Type 0} (r : Result Error A × Db) → OfListings r.1 → OfListings (catch_all r).1
      caught (ok a, t) h = h
      caught (err e, t) h = h

  Keeps-refuse_if :
      {A : Type 0} (b : Bool) (r : Refusal) (next : Ledger (Reply A))
      → Keeps OfListings next
      → Keeps OfListings (refuse_if b r next)
  Keeps-refuse_if true r next k = record { at = λ s h. h }
  Keeps-refuse_if false r next k = record { at = λ s h. k.at s h }

  Keeps-with_row :
      {R A : Type 0} (o : Option R) (r : Refusal) (next : R → Ledger (Reply A))
      → ((row : R) → Keeps OfListings (next row))
      → Keeps OfListings (with_row o r next)
  Keeps-with_row none r next k = record { at = λ s h. h }
  Keeps-with_row (some row) r next k = record { at = λ s h. (k row).at s h }

  mark :
      (s : Db) (swaps : List SwapRequest)
      → OfListings s
      → OfListings (record s { p2p_swap_requests = swaps })
  mark s swaps h = h

  transfer-listings :
      (token_id : ℕ) (owner address : String)
      → Keeps OfListings (transfer_nft_ownership token_id owner address)
  unfolding transfer_nft_ownership
  transfer-listings token_id owner address = Keeps-modify _ (λ s h. h)

  verify-listings : Keeps OfListings verify_invariants
  verify-listings = verify_invariants-Keeps OfListings (λ db h. h)

  check_expiry-listings : (now : ℕ) (swap : SwapRequest) → Keeps OfListings (check_expiry now swap)
  unfolding check_expiry update_swap ◌>>◌
  check_expiry-listings now swap = record { at = λ s h. ground arith }

  exchange-listings : (swap : SwapRequest) → Keeps OfListings (exchange swap)
  unfolding exchange
  exchange-listings swap =
      search (keeps_rules, guard_account_active-Keeps, transfer-listings) depth 12

  execute_swap-listings : (now id : ℕ) → Keeps OfListings (execute_swap now id)
  unfolding execute_swap
  execute_swap-listings now id = Keeps-then _ _ guard_not_paused-Keeps (
      Keeps-body _ (
        search
          (
            keeps_rules,
            find_pending_swap-Keeps,
            check_expiry-listings,
            exchange-listings,
            update_swap-Keeps OfListings mark,
            cancel_others-Keeps OfListings mark,
            verify-listings,
          )
          depth 14))

  pub propose_swap-listings :
      (now proposer_token : ℕ) (proposer : String) (target_token : ℕ) (db : Db)
      → OfListings db
      → OfListings (propose_swap now proposer_token proposer target_token db).1
  unfolding propose_swap
  propose_swap-listings now proposer_token proposer target_token db h =
      (Keeps-with_row (get_nft_account target_token db) no_account _ λ target.
          Keeps-refuse_if _ _ _
            (Keeps-answered _ (create_swap_request-Keeps OfListings mark _ _ _ _ _ _))).at
        db h

  pub accept_swap-listings :
      (now id : ℕ) (accepter : String) (db : Db)
      → OfListings db
      → OfListings (accept_swap now id accepter db).1
  unfolding accept_swap
  accept_swap-listings now id accepter db h =
      (Keeps-with_row (get_swap_request id db) no_swap _
          λ swap. Keeps-refuse_if _ _ _ (Keeps-answered _ (execute_swap-listings now id))).at
        db h

  pub reject_swap-listings :
      (id : ℕ) (rejecter : String) → Keeps OfListings (reject_swap id rejecter)
  unfolding reject_swap
  reject_swap-listings id rejecter =
      Keeps-answered _ (reject_swap_request-Keeps OfListings mark id rejecter)

  pub cancel_swap-listings :
      (id : ℕ) (canceller : String) → Keeps OfListings (cancel_swap id canceller)
  unfolding cancel_swap
  cancel_swap-listings id canceller =
      Keeps-answered _ (cancel_swap_request-Keeps OfListings mark id canceller)

  pub view-listings :
      (now : ℕ) (user : Option String) → Keeps OfListings (get_swap_requests_view now user)
  unfolding get_swap_requests_view
  view-listings now user =
      Keeps-bind _ _ (expire_old_swap_requests-Keeps OfListings mark now) λ n. Keeps-gets _
