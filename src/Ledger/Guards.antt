-- ===== src/Ledger/Guards.antt =====
-- What the guards of the ledger leave as it is.
use attested_capital.Base.{ℕ, ◌≡◌, refl, ap, false, true, some, if◌then◌else◌, arith}
use attested_capital.Action.{ok, err, pure, gets, require, or_throw}
use attested_capital.Action.Runs.{run_bind, run_then}
use attested_capital.Action.Ensures.{Keeps, Reads, keeps_rules}
use attested_capital.Action.Atomic.{atomic_rules}
use attested_capital.Ledger.{Db, NftAccount, fund_paused, account_not_found}
use attested_capital.Ledger.Verify.{
  get_nft_account, guard_not_paused, guard_account_exists, guard_account_active,
}

pub guard_not_paused-Keeps : {P : Db → Type 0} → Keeps P guard_not_paused
unfolding guard_not_paused
guard_not_paused-Keeps = record { at = λ s p. ground arith }

pub guard_account_active-Keeps :
    {P : Db → Type 0} (token_id : ℕ) → Keeps P (guard_account_active token_id)
unfolding guard_account_active guard_account_exists
guard_account_active-Keeps token_id = search keeps_rules depth 8

pub guard_not_paused-Reads : Reads guard_not_paused
unfolding guard_not_paused
guard_not_paused-Reads = record { store = λ s. ground arith }

pub guard_account_active-Reads : (token_id : ℕ) → Reads (guard_account_active token_id)
unfolding guard_account_active guard_account_exists
guard_account_active-Reads token_id = search atomic_rules depth 8

module _ (db : Db) where
  pub guard_not_paused-passes : db.is_paused ≡ false → guard_not_paused db ≡ (ok tt, db)
  unfolding guard_not_paused
  guard_not_paused-passes h = ap (λ b. if b then (err fund_paused, db) else (ok tt, db)) h

  pub guard_account_active-passes :
      (token_id : ℕ) (a : NftAccount)
      → get_nft_account token_id db ≡ some a
      → a.is_active ≡ true
      → guard_account_active token_id db ≡ (ok a, db)
  unfolding guard_account_active guard_account_exists require or_throw gets pure
  guard_account_active-passes token_id a found on =
      run_bind _ _ (run_bind _ _ refl (ap (λ o. or_throw o (account_not_found token_id) db) found))
        (run_then _ _ (ap (λ b. require b (account_not_found token_id) db) on) refl)
