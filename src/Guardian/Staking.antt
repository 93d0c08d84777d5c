-- ===== src/Guardian/Staking.antt =====
-- guardian-network/src/guardian/nft-staking.ts: the NFTs that owners stake with a guardian. The time
-- of unstaking is a text of SQLite, in seconds; `now` is in milliseconds.
pub mod Power
pub mod Shared
mod Examples
use attested_capital.Base.{
  ℕ, suc, ◌+◌, ◌*◌, ◌/◌, max, ◌==◌, ltb, str_eq, not, ◌&&◌, String, Bool, true, false, Option, none,
  some, List, [], ◌∷◌, ◌++◌, any, filter, length, update, total, if◌then◌else◌,
}

pub record NftStake : Type 0 where
  pub id : ℕ
  pub guardian_address : String
  pub owner_tg_id : String
  pub token_id : ℕ
  pub current_value : ℕ
  pub is_active : Bool
  pub unstaked_at : Option ℕ

pub data Failure : Type 0 where
  cooldown_active not_verified : Failure

pub record Staked : Type 0 where
  pub staked : List ℕ
  pub failed : List (ℕ × Failure)

abbrev pub restake_cooldown_ms : ℕ
restake_cooldown_ms = 604_800_000

-- `verifyOwnership`: the balance of a token that the user owns, as the fund manager answers.
abbrev pub Verifier : Type 0
Verifier = ℕ → String → Option ℕ

-- UNIQUE(guardian_address, token_id)
unfoldable pub is_stake : String → ℕ → NftStake → Bool
is_stake guardian token_id s = str_eq s.guardian_address guardian && s.token_id == token_id

-- `MAX(unstaked_at)` of the inactive rows of a key.
unfoldable pub last_unstaked : String → ℕ → List NftStake → Option ℕ
last_unstaked guardian token_id [] = none
last_unstaked guardian token_id (s ∷ rows) =
    let rest = last_unstaked guardian token_id rows in
    if is_stake guardian token_id s && not s.is_active
    then elim s.unstaked_at [
      | none ↦ rest
      | some at ↦ elim rest [ none ↦ some at | some other ↦ some (max at other) ]
    ]
    else rest

-- Whether staking is allowed.
unfoldable pub check_restake_cooldown : ℕ → String → ℕ → List NftStake → Bool
check_restake_cooldown now guardian token_id rows = elim (last_unstaked guardian token_id rows) [
  | none ↦ true
  | some at ↦ not (ltb now (at * 1000 + restake_cooldown_ms))
]

-- INSERT … ON CONFLICT … DO UPDATE
unfoldable pub upsert_stake : String → String → ℕ → ℕ → List NftStake → List NftStake
upsert_stake guardian owner token_id value rows =
    if any (is_stake guardian token_id) rows
    then update (is_stake guardian token_id)
        (λ s. record s {
          owner_tg_id = owner;
          current_value = value;
          is_active = true;
          unstaked_at = none;
        })
        rows
    else rows
      ++ record {
        id = suc (length rows);
        guardian_address = guardian;
        owner_tg_id = owner;
        token_id = token_id;
        current_value = value;
        is_active = true;
        unstaked_at = none;
      }
        ∷ []

-- One round of the loop.
unfoldable pub stake_nft :
    Verifier → ℕ → String → String → ℕ → Staked × List NftStake → Staked × List NftStake
stake_nft verify now guardian owner token_id (r, rows) =
    if check_restake_cooldown now guardian token_id rows
    then elim (verify token_id owner) [
      | none ↦ (record r { failed = r.failed ++ (token_id, not_verified) ∷ [] }, rows)
      | some value ↦ (
        record r { staked = r.staked ++ token_id ∷ [] },
        upsert_stake guardian owner token_id value rows,
      )
    ]
    else (record r { failed = r.failed ++ (token_id, cooldown_active) ∷ [] }, rows)

unfoldable pub stake_each :
    Verifier → ℕ → String → String → List ℕ → Staked × List NftStake → Staked × List NftStake
stake_each verify now guardian owner [] s = s
stake_each verify now guardian owner (token_id ∷ rest) s =
    stake_each verify now guardian owner rest (stake_nft verify now guardian owner token_id s)

unfoldable pub stake_nfts :
    Verifier → ℕ → String → String → List ℕ → List NftStake → Staked × List NftStake
stake_nfts verify now guardian owner token_ids rows =
    stake_each verify now guardian owner token_ids (record { staked = []; failed = [] }, rows)

unfoldable pub is_active_at : String → NftStake → Bool
is_active_at guardian s = str_eq s.guardian_address guardian && s.is_active

unfoldable pub unstake : ℕ → NftStake → NftStake
unstake now s = record s { is_active = false; unstaked_at = some (now / 1000) }

-- The number of changed rows is the first result.
unfoldable pub unstake_all : ℕ → String → List NftStake → ℕ × List NftStake
unstake_all now guardian rows = (
  length (filter (is_active_at guardian) rows),
  update (is_active_at guardian) (unstake now) rows,
)

unfoldable pub unstake_by_owner : ℕ → String → String → List NftStake → ℕ × List NftStake
unstake_by_owner now guardian owner rows =
    let mine = λ (s : NftStake). is_active_at guardian s && str_eq s.owner_tg_id owner in
    (length (filter mine rows), update mine (unstake now) rows)

unfoldable pub get_stakes_by_owner : String → List NftStake → List NftStake
get_stakes_by_owner owner = filter (λ s. str_eq s.owner_tg_id owner && s.is_active)

unfoldable pub get_active_stakes : String → List NftStake → List NftStake
get_active_stakes guardian = filter (is_active_at guardian)

unfoldable pub get_total_staked_value : String → List NftStake → ℕ
get_total_staked_value guardian rows =
    total (λ s. s.current_value) (get_active_stakes guardian rows)

unfoldable pub has_active_stakes : String → List NftStake → Bool
has_active_stakes guardian rows = ltb 0 (length (get_active_stakes guardian rows))

-- One active row against the fund manager's answer.
unfoldable pub reverify_row : Verifier → ℕ → NftStake → NftStake
reverify_row verify now s = elim (verify s.token_id s.owner_tg_id) [
  | none ↦ unstake now s
  | some value ↦ record s { current_value = value }
]

unfoldable pub reverify : Verifier → ℕ → List NftStake → List NftStake
reverify verify now = update (λ s. s.is_active) (reverify_row verify now)
