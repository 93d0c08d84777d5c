-- ===== src/Ledger/Trades/Loop.antt =====
-- The loop that applies the shares of a split.
use attested_capital.Base.{
  ℕ, ◌+◌, ◌≤◌, ◌==◌, ◌≡◌, refl, ap, sym, ◌∙◌, Bool, true, false, some, List, [], ◌∷◌, ◌++◌, All,
  All-append, any, find, total, if◌then◌else◌, arith,
}
use attested_capital.Base.Int.{ℤ, pos, pos_part, neg_part, ◌+ℤ◌, +ℤ_assoc, int_laws}
use attested_capital.Action.{ok, for_each, continue, ◌>>◌}
use attested_capital.Ledger.{Db, NftAccount, TradeAllocation, active_accounts, next_id}
use attested_capital.Ledger.Verify.{active_total, alloc_sum}
use attested_capital.Ledger.Shares.{Share, sum_shares}
use attested_capital.Ledger.Shares.Losses.{IsCovered}
use attested_capital.Ledger.Rows.{active-All-update}
use attested_capital.Ledger.Accounts.{update_account}
use attested_capital.Ledger.Consistency.{IsBalanced}
use attested_capital.Ledger.Trades.{apply_share, update_balance, insert_allocation, allocate}
use attested_capital.Ledger.Trades.Applied.{
  has_key, Distinct, moved, moved-key, moved-mark, moved-IsBalanced, apply_share-eq,
  active_total-moved,
}

-- A share whose account is active and has the balance that it was computed from.
abbrev pub Backed : List NftAccount → Share → Type 0
Backed rows s =
    (a : NftAccount) × (find (λ x. x.token_id == s.token_id) rows ≡ some a)
    × (a.is_active ≡ true)
    × (a.current_balance ≡ s.balance)

abbrev pub has_share : ℕ → List Share → Bool
has_share k = any (λ s. s.token_id == k)

-- At most one share for each account.
abbrev pub Apart : List Share → Type 0
Apart [] = Unit
Apart (s ∷ xs) = (has_share s.token_id xs ≡ false) × Apart xs

module _ (k : ℕ) (f : NftAccount → NftAccount)
    (same : (a : NftAccount) → (f a).token_id ≡ a.token_id) where
  has_key-update :
      (j : ℕ) (rows : List NftAccount) → has_key j (update_account k f rows) ≡ has_key j rows
  has_key-update j [] = refl
  has_key-update j (a ∷ rows) = ground (arith, same a, has_key-update j rows)

  pub Distinct-update :
      (rows : List NftAccount) → Distinct rows → Distinct (update_account k f rows)
  Distinct-update [] d = tt
  Distinct-update (a ∷ rows) d = (
    has_key-update (if a.token_id == k then f a else a).token_id rows ∙ ground (arith, same a, d.0),
    Distinct-update rows d.1,
  )

  pub find-other :
      (j : ℕ) (rows : List NftAccount)
      → (j == k) ≡ false
      → find (λ x. x.token_id == j) (update_account k f rows) ≡ find (λ x. x.token_id == j) rows
  find-other j [] h = refl
  find-other j (a ∷ rows) h = ground (arith, same a, find-other j rows h)

pub Backed-moved :
    (k : ℕ) (share : ℤ) (rows : List NftAccount) (xs : List Share)
    → has_share k xs ≡ false
    → All (Backed rows) xs
    → All (Backed (update_account k (moved share) rows)) xs
Backed-moved k share rows [] h b = tt
Backed-moved k share rows (s ∷ xs) h b =
    let other : (s.token_id == k) ≡ false = ground arith in
    let later : has_share k xs ≡ false = ground arith in
    (
      (
        b.0.0,
        find-other k (moved share) (moved-key share) s.token_id rows other ∙ b.0.1,
        b.0.2,
        b.0.3,
      ),
      Backed-moved k share rows xs later b.1,
    )

alloc_sum-last :
    (id : ℕ) (allocations : List TradeAllocation) (x : TradeAllocation)
    → alloc_sum id (allocations ++ x ∷ [])
      ≡ alloc_sum id allocations +ℤ (if x.trade_id == id then x.pnl_share else pos 0)
unfolding alloc_sum
alloc_sum-last id [] x = omega int_laws
alloc_sum-last id (a ∷ rest) x = rw (alloc_sum-last id rest x) (sym (+ℤ_assoc _ _ _))

nothing_more : (z : ℤ) (b : Bool) → z ≡ z +ℤ (if b then pos 0 else pos 0)
nothing_more z true = omega int_laws
nothing_more z false = omega int_laws

regroup :
    (z a c : ℤ) (b : Bool)
    → z +ℤ (if b then a else pos 0) +ℤ (if b then c else pos 0) ≡ z +ℤ (if b then a +ℤ c else pos 0)
regroup z a c true = omega int_laws
regroup z a c false = omega int_laws

-- What the loop leaves.
pub record Handed (id pool : ℕ) (xs : List Share) (db : Db) : Type 0 where
  pub left : Db
  pub run : for_each xs (allocate id pool) db ≡ (ok tt, left)
  pub money :
      active_total left.accounts + total (λ s. neg_part s.share) xs
      ≡ active_total db.accounts + total (λ s. pos_part s.share) xs
  pub balanced :
      All IsBalanced (active_accounts db.accounts) → All IsBalanced (active_accounts left.accounts)
  pub sums :
      (j : ℕ)
      → alloc_sum j left.trade_allocations
        ≡ alloc_sum j db.trade_allocations +ℤ (if id == j then sum_shares xs else pos 0)
  pub fund : left.fund ≡ db.fund
  pub trades : left.trades ≡ db.trades
  pub keys : Distinct left.accounts
  pub references :
      (n : ℕ)
      → id ≤ n
      → All (λ x. x.trade_id ≤ n) db.trade_allocations
      → All (λ x. x.trade_id ≤ n) left.trade_allocations

-- The store after one share.
abbrev one_share : ℕ → ℕ → Share → Db → Db
one_share id pool s db = record db {
  accounts = update_account s.token_id (moved s.share) db.accounts;
  trade_allocations =
      db.trade_allocations
      ++ record {
        id = next_id db.trade_allocations;
        trade_id = id;
        token_id = s.token_id;
        pnl_share = s.share;
        balance_at_trade = s.balance;
        pool_total_at_trade = pool;
      }
        ∷ [];
}

allocate-eq :
    (id pool : ℕ) (s : Share) (db : Db) (a : NftAccount)
    → Distinct db.accounts
    → find (λ x. x.token_id == s.token_id) db.accounts ≡ some a
    → neg_part s.share ≤ a.current_balance
    → allocate id pool s db ≡ (ok tt, one_share id pool s db)
unfolding allocate insert_allocation update_balance apply_share ◌>>◌
allocate-eq id pool s db a d found fits =
    rw (apply_share-eq s.token_id s.share db.accounts a d found fits) refl

pub hand_out :
    (id pool : ℕ) (xs : List Share) (db : Db)
    → Distinct db.accounts
    → Apart xs
    → All (Backed db.accounts) xs
    → All IsCovered xs
    → Handed id pool xs db
unfolding for_each sum_shares
hand_out id pool [] db d apart backed covered = record {
  left = db;
  run = refl;
  money = refl;
  balanced = λ h. h;
  sums = λ j. nothing_more (alloc_sum j db.trade_allocations) (id == j);
  fund = refl;
  trades = refl;
  keys = d;
  references = λ n le h. h;
}
hand_out id pool (s ∷ xs) db d apart backed covered =
    let a = backed.0.0 in
    let fits : neg_part s.share ≤ a.current_balance = omega (arith, backed.0.3, covered.0) in
    let next = one_share id pool s db in
    let rest =
      hand_out id pool xs next
        (Distinct-update s.token_id (moved s.share) (moved-key s.share) db.accounts d) apart.1
        (Backed-moved s.token_id s.share db.accounts xs apart.0 backed.1) covered.1 in
    record {
      left = rest.left;
      run =
          ap (λ r. continue r (λ _. for_each xs (allocate id pool)))
            (allocate-eq id pool s db a d backed.0.1 fits)
          ∙ rest.run;
      money = omega (
        arith,
        rest.money,
        active_total-moved s.token_id s.share db.accounts a d backed.0.1 backed.0.2 fits,
      );
      balanced = λ h. rest.balanced (
          active-All-update IsBalanced _ (moved s.share)
            (λ x. (moved-mark s.share x, moved-IsBalanced s.share x)) db.accounts h);
      sums = λ j.
          rest.sums j
          ∙ ap (λ z. z +ℤ (if id == j then sum_shares xs else pos 0))
              (alloc_sum-last j db.trade_allocations _)
          ∙ regroup (alloc_sum j db.trade_allocations) s.share (sum_shares xs) (id == j);
      fund = rest.fund;
      trades = rest.trades;
      keys = rest.keys;
      references = λ n le h. rest.references n le (All-append _ db.trade_allocations _ h (le, tt));
    }
