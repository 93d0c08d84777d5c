-- ===== src/Trading/Desk.antt =====
-- panthers-fund/src/database/ledger.ts: the open positions, beside the tables of the ledger.
use Prim.Native.String.{String}
use attested_capital.Base.{ℕ, suc, ◌==◌, str_eq, Bool, Option, List, ◌∷◌, filter, find, not}
use attested_capital.Action.{Result, ok, err, Action, pure, gets, or_throw, modify, ◌>>=◌, ◌>>◌}
use attested_capital.Ledger.{Db, Direction, Ledger, Error as LedgerError}
use attested_capital.Ledger.Verify.{guard_not_paused}

-- The price of the entry in cents, as the row of the trade rounds it.
pub record OpenPosition : Type 0 where
  pub id : ℕ
  pub pair : String
  pub direction : Direction
  pub entry_price : ℕ
  pub amount_cents : ℕ
  pub token_amount_raw : String
  pub entry_signature : String
  pub strategy : String

-- The ledger, the table of open positions, the newest first, and the last key given.
pub record Desk : Type 0 where
  pub ledger : Db
  pub positions : List OpenPosition
  pub last_id : ℕ

pub data DeskFailure : Type 0 where
  ledger_failure : LedgerError → DeskFailure
  position_not_found : ℕ → DeskFailure

abbrev pub Trading : Type 0 → Type 0
Trading A = Action Desk DeskFailure A

abbrev pub failure_of : {A : Type 0} → Result LedgerError A → Result DeskFailure A
failure_of (ok a) = ok a
failure_of (err e) = err (ledger_failure e)

-- A method of the ledger.
unfoldable pub on_ledger : {A : Type 0} → Ledger A → Trading A
on_ledger m desk = let r = m desk.ledger in (failure_of r.0, record desk { ledger = r.1 })

abbrev pub is_position : ℕ → OpenPosition → Bool
is_position id p = p.id == id

-- `Omit<OpenPosition, 'id'>` with the key it gets.
unfoldable pub open_position : (ℕ → OpenPosition) → Trading OpenPosition
open_position row = do
  on_ledger guard_not_paused
  position ← gets λ desk. row (suc desk.last_id)
  modify λ desk. record desk { positions = position ∷ desk.positions; last_id = suc desk.last_id }
  pure position

abbrev pub sol_usdc : String
sol_usdc = "SOL/USDC"

unfoldable pub get_open_positions : String → Desk → List OpenPosition
get_open_positions pair desk = filter (λ p. str_eq p.pair pair) desk.positions

unfoldable pub get_open_position : ℕ → Desk → Option OpenPosition
get_open_position id desk = find (is_position id) desk.positions

abbrev pub without : ℕ → List OpenPosition → List OpenPosition
without id = filter (λ p. not (is_position id p))

unfoldable pub close_position : ℕ → Trading OpenPosition
close_position id = do
  position ← gets (get_open_position id)
  closed ← or_throw position (position_not_found id)
  modify λ desk. record desk { positions = without id desk.positions }
  pure closed
