-- ===== src/Marketplace/Previews.antt =====
-- panthers-fund/src/marketplace/marketplace.ts and panthers-fund/src/database/ledger.ts: the preview
-- of a withdrawal, and the withdrawal.
use attested_capital.Base.{
  ℕ, ◌+◌, ◌-◌, ◌≤◌, ◌==◌, ◌≡◌, refl, ap, sym, ◌∙◌, subst, Bool-cases, Option-cases, inl, inr, true,
  false, not, String, some, if◌then◌else◌, ltb, find, List, [], ◌∷◌, arith,
}
use attested_capital.Action.{ok, pure}
use attested_capital.Action.Runs.{run_bind, run_then, run_transaction}
use attested_capital.Ledger.{Db, NftAccount, Withdrawal}
use attested_capital.Ledger.Verify.{get_nft_account}
use attested_capital.Ledger.Guards.{guard_not_paused-passes, guard_account_active-passes}
use attested_capital.Ledger.Consistency.{IsConsistent, verify_invariants-passes}
use attested_capital.Ledger.Trades.Applied.{Distinct}
use attested_capital.Ledger.Withdrawals.{withdrawal_fee, deactivate, record_withdrawal}
use attested_capital.Ledger.Withdrawals.Closed.{
  withdrawal_of, closed, closed-pool, closed-IsConsistent, closed-Distinct, close_account-eq,
}
use attested_capital.Ledger.Withdrawals.FeePaid.{pay_fee}
use attested_capital.Ledger.Rows.{find-update}
use attested_capital.Marketplace.{
  WithdrawalPreview, success, refused, inactive, zero_balance, preview_fee, preview_of,
  preview_withdrawal,
}

-- A preview succeeds for an active account with some balance, and shows what is computed from it.
previewed_row :
    (token_id : ℕ) (db : Db) (a : NftAccount) (p : WithdrawalPreview)
    → (if not a.is_active
        then refused inactive
        else if a.current_balance == 0
        then refused zero_balance
        else success (preview_of token_id a db))
      ≡ success p
    → (a.is_active ≡ true) × (1 ≤ a.current_balance) × (preview_of token_id a db ≡ p)
unfolding preview_of
previewed_row token_id db a p shown = elim (Bool-cases a.is_active) [
  | inr off ↦ cc (rw off at shown)
  | inl on ↦ elim (Bool-cases (a.current_balance == 0)) [
    | inl empty ↦ cc (rw (on, empty) at shown)
    | inr some_cents ↦
        let same : success (preview_of token_id a db) ≡ success p = rw (on, some_cents) at shown in
        (on, ground arith, cc)
  ]
]

previewed :
    (token_id : ℕ) (db : Db) (p : WithdrawalPreview)
    → preview_withdrawal token_id db ≡ success p
    → (a : NftAccount) × (get_nft_account token_id db ≡ some a)
      × (a.is_active ≡ true)
      × (1 ≤ a.current_balance)
      × (preview_of token_id a db ≡ p)
unfolding preview_withdrawal
previewed token_id db p shown = elim (Option-cases (get_nft_account token_id db)) [
  | inl nobody ↦ cc (rw (preview_withdrawal, nobody) at shown)
  | inr (a, found) ↦
      let (on, some_cents, same) =
        previewed_row token_id db a p (rw (preview_withdrawal, found) at shown) in
      (a, found, on, some_cents, same)
]

key_of :
    (k : ℕ) (rows : List NftAccount) (a : NftAccount)
    → find (λ x. x.token_id == k) rows ≡ some a
    → k ≡ a.token_id
key_of k [] a h = cc
key_of k (x ∷ rows) a h = ground (arith, key_of k rows a)

pool_sum :
    (left mid fee balance pool : ℕ)
    → left ≡ (if mid == 0 then 0 else mid + fee)
    → mid + balance ≡ pool
    → fee ≤ balance
    → left + (if ltb balance pool then balance - fee else balance) ≡ pool
pool_sum left mid fee balance pool h k fits = ground arith

fee-le : (balance : ℕ) → withdrawal_fee balance ≤ balance
unfolding withdrawal_fee
fee-le balance = omega arith

-- The two formulas of the fee.
fees-agree : (balance : ℕ) → withdrawal_fee balance ≡ preview_fee balance
unfolding withdrawal_fee preview_fee
fees-agree balance = refl

-- What a withdrawal leaves.
record Paid (db : Db) (a : NftAccount) (address signature : String) : Type 0 where
  left : Db
  run :
      record_withdrawal a.token_id address signature db
      ≡ (ok (withdrawal_of db a address signature), left)
  consistent : IsConsistent left
  gone : get_nft_account a.token_id left ≡ some (deactivate a)
  pool :
      left.total_pool_balance
        + (if ltb a.current_balance db.total_pool_balance
            then a.current_balance - withdrawal_fee a.current_balance
            else a.current_balance)
      ≡ db.total_pool_balance

module _ (db : Db) (a : NftAccount) (address signature : String) (c : IsConsistent db)
    (distinct : Distinct db.accounts) (running : db.is_paused ≡ false)
    (counted : 1 ≤ db.total_nfts_active) (found : get_nft_account a.token_id db ≡ some a)
    (on : a.is_active ≡ true) (some_cents : 1 ≤ a.current_balance) where
  pay : Paid db a address signature
  unfolding record_withdrawal pure get_nft_account deactivate
  pay =
      let mid = closed db a address signature in
      let fee = withdrawal_fee a.current_balance in
      let paid =
        pay_fee fee mid (closed-IsConsistent db a address signature c distinct found on)
          (closed-Distinct db a address signature c distinct found on) in
      record {
        left = paid.left;
        run = run_then _ _ (guard_not_paused-passes db running) (
            run_transaction _ (
              run_bind _ _ (guard_account_active-passes db a.token_id a found on) (
                run_bind _ _
                  (close_account-eq db a address signature c distinct found on some_cents counted)
                  (run_then _ _ paid.run
                    (run_then _ _ (verify_invariants-passes _ paid.consistent) refl)))));
        consistent = paid.consistent;
        gone =
            paid.inactive a.token_id (deactivate a)
              (find-update a.token_id deactivate a db.accounts (λ x. refl) found) refl;
        pool =
            pool_sum _ _ fee _ _ paid.pool (closed-pool db a address signature c distinct found on)
              (fee-le a.current_balance);
      }

-- A withdrawal returns with the amounts of the preview, and leaves the account empty and inactive,
-- and a consistent ledger. The pool has lost the net amount, or the whole one where nothing is left
-- to hold the fee.
abbrev pub IsAsPreviewed : String → String → Db → WithdrawalPreview → ℕ → Type 0
IsAsPreviewed address signature db p token_id =
    (w : Withdrawal) × (t : Db) × (a : NftAccount) × (record_withdrawal token_id address signature
        db
      ≡ (ok w, t))
    × (w.amount ≡ p.gross_amount)
    × (w.fee ≡ p.fee)
    × (w.net_amount ≡ p.net_amount)
    × IsConsistent t
    × (get_nft_account token_id t ≡ some a)
    × (a.is_active ≡ false)
    × (a.current_balance ≡ 0)
    × (t.total_pool_balance
          + (if ltb p.gross_amount db.total_pool_balance then p.net_amount else p.gross_amount)
        ≡ db.total_pool_balance)

Paid-IsAsPreviewed :
    (db : Db) (a : NftAccount) (address signature : String)
    → Paid db a address signature
    → IsAsPreviewed address signature db (preview_of a.token_id a db) a.token_id
unfolding preview_of deactivate
Paid-IsAsPreviewed db a address signature paid =
    let fee = fees-agree a.current_balance in
    let net = ap (λ f. a.current_balance - f) fee in
    (
      withdrawal_of db a address signature,
      paid.left,
      deactivate a,
      paid.run,
      refl,
      fee,
      net,
      paid.consistent,
      paid.gone,
      refl,
      refl,
      ap
            (λ n.
              paid.left.total_pool_balance
              + (if ltb a.current_balance db.total_pool_balance then n else a.current_balance))
            (sym net)
          ∙ paid.pool,
    )

-- In a consistent, running ledger whose keys are keys and which counts some active NFT, a withdrawal
-- does what its preview shows: where the preview succeeds, the withdrawal returns, with the amount,
-- the fee and the rest that were shown. The ledger that it leaves is consistent, the account is
-- inactive and empty, and the pool has lost the net amount of the preview, or the whole amount where
-- no other account has a balance that could hold the fee.
pub record_withdrawal-IsAsPreviewed :
    (token_id : ℕ) (address signature : String) (db : Db) (p : WithdrawalPreview)
    → IsConsistent db
    → Distinct db.accounts
    → db.is_paused ≡ false
    → 1 ≤ db.total_nfts_active
    → preview_withdrawal token_id db ≡ success p
    → IsAsPreviewed address signature db p token_id
unfolding get_nft_account
record_withdrawal-IsAsPreviewed token_id address signature db p c distinct running counted shown =
    let (b, found, on, some_cents, same) = previewed token_id db p shown in
    let key = key_of token_id db.accounts b found in
    let own = subst (λ k. get_nft_account k db ≡ some b) key found in
    let as_shown =
      Paid-IsAsPreviewed db b address signature
        (pay db b address signature c distinct running counted own on some_cents) in
    subst (λ q. IsAsPreviewed address signature db q token_id) same
      (subst (λ k. IsAsPreviewed address signature db (preview_of k b db) k) (sym key) as_shown)
