-- ===== src/Ledger/Withdrawals/PaidOut.antt =====
-- panthers-fund/src/database/ledger.ts: the loop of `distributeWithdrawalFee` that pays the shares.
use attested_capital.Base.{
  ℕ, ◌+◌, ◌==◌, ◌≡◌, refl, ap, ◌∙◌, Bool-cases, inl, inr, true, false, ltb, some, List, [], ◌∷◌,
  All, find, total, arith,
}
use attested_capital.Base.Int.{pos_part, neg_part}
use attested_capital.Action.{ok, for_each, continue}
use attested_capital.Ledger.{Db, NftAccount, active_accounts}
use attested_capital.Ledger.Verify.{active_total, get_nft_account}
use attested_capital.Ledger.Rows.{active-All-update}
use attested_capital.Ledger.Accounts.{update_account}
use attested_capital.Ledger.Consistency.{IsBalanced}
use attested_capital.Ledger.Shares.{Share}
use attested_capital.Ledger.Shares.Bounds.{IsGain}
use attested_capital.Ledger.Trades.{update_balance}
use attested_capital.Ledger.Trades.Applied.{
  Distinct, moved, moved-key, moved-mark, moved-IsBalanced, apply_share-eq, active_total-moved,
}
use attested_capital.Ledger.Trades.Loop.{
  Backed, has_share, Apart, Distinct-update, find-other, Backed-moved,
}
use attested_capital.Ledger.Withdrawals.{pay_share}

-- What the loop leaves: the active balances have grown by the shares.
pub record PaidOut (xs : List Share) (db : Db) : Type 0 where
  pub left : Db
  pub run : for_each xs pay_share db ≡ (ok tt, left)
  pub money :
      active_total left.accounts ≡ active_total db.accounts + total (λ s. pos_part s.share) xs
  pub balanced :
      All IsBalanced (active_accounts db.accounts) → All IsBalanced (active_accounts left.accounts)
  pub fund : left.fund ≡ db.fund
  pub trades : left.trades ≡ db.trades
  pub allocations : left.trade_allocations ≡ db.trade_allocations
  pub others : (k : ℕ) → has_share k xs ≡ false → get_nft_account k left ≡ get_nft_account k db

-- The store after one share.
abbrev one_paid : Share → Db → Db
one_paid s db = record db { accounts = update_account s.token_id (moved s.share) db.accounts }

pay_share-eq :
    (s : Share) (db : Db) (a : NftAccount)
    → ltb 0 (pos_part s.share) ≡ true
    → Distinct db.accounts
    → find (λ x. x.token_id == s.token_id) db.accounts ≡ some a
    → neg_part s.share ≡ 0
    → pay_share s db ≡ (ok tt, one_paid s db)
unfolding pay_share update_balance
pay_share-eq s db a some_cents d found gain =
    rw
      (
        some_cents,
        update_balance,
        apply_share-eq s.token_id s.share db.accounts a d found (omega arith),
      )
      refl

pay_share-none :
    (s : Share) (db : Db) → ltb 0 (pos_part s.share) ≡ false → pay_share s db ≡ (ok tt, db)
unfolding pay_share
pay_share-none s db no_cents = rw no_cents refl

-- One share, and the rest of the loop.
paid_first :
    (s : Share) (xs : List Share) (db next : Db)
    → pay_share s db ≡ (ok tt, next)
    → (rest : PaidOut xs next) → for_each (s ∷ xs) pay_share db ≡ (ok tt, rest.left)
unfolding for_each
paid_first s xs db next first rest =
    ap (λ r. continue r (λ _. for_each xs pay_share)) first ∙ rest.run

pub pay_out :
    (xs : List Share) (db : Db)
    → Distinct db.accounts
    → Apart xs
    → All (Backed db.accounts) xs
    → All IsGain xs
    → PaidOut xs db
unfolding for_each get_nft_account
pay_out [] db d apart backed gain = record {
  left = db;
  run = refl;
  money = omega arith;
  balanced = λ h. h;
  fund = refl;
  trades = refl;
  allocations = refl;
  others = λ k h. refl;
}
pay_out (s ∷ xs) db d apart backed gain = elim (Bool-cases (ltb 0 (pos_part s.share))) [
  | inr no_cents ↦
      let rest = pay_out xs db d apart.1 backed.1 gain.1 in
      record {
        left = rest.left;
        run = paid_first s xs db db (pay_share-none s db no_cents) rest;
        money = ground (arith, rest.money);
        balanced = rest.balanced;
        fund = rest.fund;
        trades = rest.trades;
        allocations = rest.allocations;
        others = λ k h. rest.others k (ground arith);
      }
  | inl some_cents ↦
      let a = backed.0.0 in
      let rest =
        pay_out xs (one_paid s db)
          (Distinct-update s.token_id (moved s.share) (moved-key s.share) db.accounts d) apart.1
          (Backed-moved s.token_id s.share db.accounts xs apart.0 backed.1) gain.1 in
      record {
        left = rest.left;
        run =
            paid_first s xs db (one_paid s db) (pay_share-eq s db a some_cents d backed.0.1 gain.0)
              rest;
        money = omega (
          arith,
          rest.money,
          gain.0,
          active_total-moved s.token_id s.share db.accounts a d backed.0.1 backed.0.2
              (omega (arith, gain.0)),
        );
        balanced = λ h. rest.balanced (
            active-All-update IsBalanced _ (moved s.share)
              (λ x. (moved-mark s.share x, moved-IsBalanced s.share x)) db.accounts h);
        fund = rest.fund;
        trades = rest.trades;
        allocations = rest.allocations;
        others = λ k h.
            let other : (k == s.token_id) ≡ false = ground arith in
            rest.others k (ground arith)
            ∙ find-other s.token_id (moved s.share) (moved-key s.share) k db.accounts other;
      }
]
