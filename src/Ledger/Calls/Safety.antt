-- ===== src/Ledger/Calls/Safety.antt =====
-- Every call keeps the ledger consistent.
use attested_capital.Base.{ℕ, ◌≡◌, refl, ap, sym, subst, ◌∙◌, inl, inr, String, List, [], ◌∷◌}
use attested_capital.Base.Int.{ℤ}
use attested_capital.Action.{ok, modify, ◌>>◌}
use attested_capital.Action.Ensures.{
  Ensures, Keeps, Reads, keeps_rules, Keeps-modify, Keeps-bind, Keeps-then, Keeps-pure, Keeps-gets,
  Keeps-or_throw,
}
use attested_capital.Action.Atomic.{Reads-pure, Reads-gets}
use attested_capital.Ledger.{Db, NftAccount, Error, Ledger, empty, TradeInput, SwapRequest}
use attested_capital.Ledger.Verify.{verify_invariants, pause_fund, unpause_fund}
use attested_capital.Ledger.Guards.{guard_not_paused-Keeps, guard_account_active-Keeps}
use attested_capital.Ledger.Rows.{active_total-update, active-All-update}
use attested_capital.Ledger.Accounts.{
  create_nft_account, set_mint_address, add_funds_to_nft, transfer_nft_ownership, update_account,
}
use attested_capital.Ledger.Trades.{record_trade}
use attested_capital.Ledger.Withdrawals.{record_withdrawal}
use attested_capital.Ledger.Market.{record_p2p_sale, create_p2p_listing, cancel_p2p_listing}
use attested_capital.Ledger.Swaps.{execute_swap}
use attested_capital.Ledger.Swaps.Writes.{
  create_swap_request-Keeps, cancel_swap_request-Keeps, reject_swap_request-Keeps,
  expire_old_swap_requests-Keeps,
}
use attested_capital.Ledger.Consistency.{
  IsConsistent, IsBalanced, verify_invariants_decides, verify_invariants-Keeps,
}
use attested_capital.Ledger.Calls.{
  Call, creates, adds_funds, trades, withdraws, sells, lists, cancels_listing, proposes_swap,
  executes_swap, cancels_swap, rejects_swap, expires_swaps, sets_mint_address, transfers, pauses,
  unpauses, verifies, discard, perform, run,
}

-- What passes the check is consistent, and a result is only read off it.
module _ {A : Type 0} where
  checked :
      (n : Ledger A) (s t : Db) (a : A)
      → Reads n
      → (verify_invariants >> n) s ≡ (ok a, t)
      → IsConsistent t
  unfolding ◌>>◌
  checked n s t a r e = elim (verify_invariants_decides s) [
    | inl (c, v) ↦ subst IsConsistent (sym (r.store s) ∙ ap (λ p. p.1) (rw v at e)) c
    | inr (off, (x, v)) ↦ cc (rw v at e)
  ]

  Ensures-checked : (n : Ledger A) → Reads n → Ensures IsConsistent (verify_invariants >> n)
  Ensures-checked n r = record { returns = λ s t a e. checked n s t a r e }

ruleset safety = (keeps_rules, Ensures-checked, Reads-pure, Reads-gets, guard_not_paused-Keeps)

create_nft_account-Keeps :
    (max_nfts token_id : ℕ) (owner address : String) (deposit : ℤ) (mint : _)
    → Keeps IsConsistent (create_nft_account max_nfts token_id owner address deposit mint)
unfolding create_nft_account
create_nft_account-Keeps max_nfts token_id owner address deposit mint = search safety depth 14

add_funds_to_nft-Keeps :
    (token_id : ℕ) (amount : ℤ) (tx_hash : String)
    → Keeps IsConsistent (add_funds_to_nft token_id amount tx_hash)
unfolding add_funds_to_nft
add_funds_to_nft-Keeps token_id amount tx_hash = search safety depth 14

record_trade-Keeps : (input : TradeInput) → Keeps IsConsistent (record_trade input)
unfolding record_trade
record_trade-Keeps input = search safety depth 14

record_withdrawal-Keeps :
    (token_id : ℕ) (address signature : String)
    → Keeps IsConsistent (record_withdrawal token_id address signature)
unfolding record_withdrawal
record_withdrawal-Keeps token_id address signature = search safety depth 14

record_p2p_sale-Keeps :
    (token_id : ℕ) (buyer address : String) (price : ℤ) (signature : String)
    → Keeps IsConsistent (record_p2p_sale token_id buyer address price signature)
unfolding record_p2p_sale
record_p2p_sale-Keeps token_id buyer address price signature = search safety depth 14

execute_swap-Keeps : (now id : ℕ) → Keeps IsConsistent (execute_swap now id)
unfolding execute_swap
execute_swap-Keeps now id = search safety depth 14

-- The calls outside a transaction leave balances, trades and allocations alone.
swaps-IsConsistent :
    (s : Db) (swaps : List SwapRequest)
    → IsConsistent s
    → IsConsistent (record s { p2p_swap_requests = swaps })
swaps-IsConsistent s swaps c = record {
  pool = c.pool;
  balanced = c.balanced;
  allocated = c.allocated;
}

-- A write to the other tables.
abbrev KeepsMoney : (Db → Db) → Type 0
KeepsMoney f =
    (s : Db)
    → ((f s).accounts ≡ s.accounts)
      × ((f s).total_pool_balance ≡ s.total_pool_balance)
      × ((f s).trades ≡ s.trades)
      × ((f s).trade_allocations ≡ s.trade_allocations)

elsewhere-Keeps : (f : Db → Db) → KeepsMoney f → Keeps {E = Error} IsConsistent (modify f)
elsewhere-Keeps f same = Keeps-modify f (λ s c. record {
  pool = rw ((same s).0, (same s).1) c.pool;
  balanced = rw ((same s).0) c.balanced;
  allocated = rw ((same s).2, (same s).3) c.allocated;
})

create_p2p_listing-Keeps :
    (token_id : ℕ) (price : ℤ) → Keeps IsConsistent (create_p2p_listing token_id price)
unfolding create_p2p_listing
create_p2p_listing-Keeps token_id price = Keeps-then _ _ guard_not_paused-Keeps (
    Keeps-bind _ _ (Keeps-or_throw _ _) λ price'.
      Keeps-bind _ _ (guard_account_active-Keeps token_id) λ account.
        Keeps-bind _ _ (Keeps-gets _) λ listing.
          Keeps-then _ _ (elsewhere-Keeps _ λ s. (refl, refl, refl, refl)) (Keeps-pure _))

cancel_p2p_listing-Keeps : (id : ℕ) → Keeps IsConsistent (cancel_p2p_listing id)
unfolding cancel_p2p_listing
cancel_p2p_listing-Keeps id = elsewhere-Keeps _ λ s. (refl, refl, refl, refl)

pause_fund-Keeps : Keeps IsConsistent pause_fund
unfolding pause_fund
pause_fund-Keeps = elsewhere-Keeps _ λ s. (refl, refl, refl, refl)

unpause_fund-Keeps : Keeps IsConsistent unpause_fund
unfolding unpause_fund
unpause_fund-Keeps = elsewhere-Keeps _ λ s. (refl, refl, refl, refl)

-- A write to account columns other than the money.
owner-Keeps :
    (token_id : ℕ) (f : NftAccount → NftAccount)
    → ((a : NftAccount)
        → ((f a).current_balance ≡ a.current_balance)
          × ((f a).is_active ≡ a.is_active)
          × (IsBalanced a → IsBalanced (f a)))
    → Keeps {E = Error} IsConsistent
        (modify (λ db. record db { accounts = update_account token_id f db.accounts }))
owner-Keeps token_id f same = Keeps-modify _ (λ s c. record {
  pool = active_total-update _ f (λ a. ((same a).0, (same a).1)) s.accounts ∙ c.pool;
  balanced = active-All-update IsBalanced _ f (λ a. ((same a).1, (same a).2)) s.accounts c.balanced;
  allocated = c.allocated;
})

set_mint_address-Keeps :
    (token_id : ℕ) (mint : String) → Keeps IsConsistent (set_mint_address token_id mint)
unfolding set_mint_address
set_mint_address-Keeps token_id mint = owner-Keeps token_id _ (λ a. (refl, refl, λ h. h))

transfer_nft_ownership-Keeps :
    (token_id : ℕ) (owner address : String)
    → Keeps IsConsistent (transfer_nft_ownership token_id owner address)
unfolding transfer_nft_ownership
transfer_nft_ownership-Keeps token_id owner address =
    owner-Keeps token_id _ (λ a. (refl, refl, λ h. h))

discard-Keeps : {A : Type 0} (m : Ledger A) → Keeps IsConsistent m → Keeps IsConsistent (discard m)
unfolding discard
discard-Keeps m k = Keeps-bind m _ k (λ a. Keeps-pure tt)

perform-Keeps : (c : Call) → Keeps IsConsistent (perform c)
unfolding perform
perform-Keeps (creates a b c d e f) = discard-Keeps _ (create_nft_account-Keeps a b c d e f)
perform-Keeps (adds_funds a b c) = discard-Keeps _ (add_funds_to_nft-Keeps a b c)
perform-Keeps (trades a) = discard-Keeps _ (record_trade-Keeps a)
perform-Keeps (withdraws a b c) = discard-Keeps _ (record_withdrawal-Keeps a b c)
perform-Keeps (sells a b c d e) = discard-Keeps _ (record_p2p_sale-Keeps a b c d e)
perform-Keeps (lists a b) = discard-Keeps _ (create_p2p_listing-Keeps a b)
perform-Keeps (cancels_listing a) = cancel_p2p_listing-Keeps a
perform-Keeps (proposes_swap a b c d e f) =
    discard-Keeps _ (create_swap_request-Keeps IsConsistent swaps-IsConsistent a b c d e f)
perform-Keeps (executes_swap a b) = discard-Keeps _ (execute_swap-Keeps a b)
perform-Keeps (cancels_swap a b) = cancel_swap_request-Keeps IsConsistent swaps-IsConsistent a b
perform-Keeps (rejects_swap a b) = reject_swap_request-Keeps IsConsistent swaps-IsConsistent a b
perform-Keeps (expires_swaps a) =
    discard-Keeps _ (expire_old_swap_requests-Keeps IsConsistent swaps-IsConsistent a)
perform-Keeps (sets_mint_address a b) = set_mint_address-Keeps a b
perform-Keeps (transfers a b c) = transfer_nft_ownership-Keeps a b c
perform-Keeps pauses = pause_fund-Keeps
perform-Keeps unpauses = unpause_fund-Keeps
perform-Keeps verifies =
    verify_invariants-Keeps IsConsistent
      (λ db c. record { pool = c.pool; balanced = c.balanced; allocated = c.allocated })

-- From a consistent ledger, whatever calls are made and whichever of them throw, the ledger stays
-- consistent: the pool is the sum of the active balances, each active balance is the deposit plus
-- the profit or loss, and the allocations of each trade sum to its profit or loss.
pub run-IsConsistent : (calls : List Call) (db : Db) → IsConsistent db → IsConsistent (run calls db)
unfolding run
run-IsConsistent [] db c = c
run-IsConsistent (call ∷ calls) db c = run-IsConsistent calls _ ((perform-Keeps call).at db c)

pub empty-IsConsistent : IsConsistent empty
empty-IsConsistent = record { pool = refl; balanced = tt; allocated = tt }
