-- ===== src/Guardian/Delegations.antt =====
-- guardian-network/src/guardian/delegations.ts: delegations and the voting power that they give.
pub mod Values
use attested_capital.Base.{
  ℕ, suc, ◌+◌, ◌==◌, not, str_eq, ◌&&◌, ◌||◌, String, Bool, true, false, Option, none, some, List,
  [], ◌∷◌, ◌++◌, any, find, filter, length, update, total, if◌then◌else◌,
}
use attested_capital.Action.{ok}
use attested_capital.Guardian.{Delegation, Store, Guarded}
use attested_capital.Guardian.Clock.{Stamp, sql_now, text_le}

pub record DelegationInput : Type 0 where
  pub delegator_tg_id : String
  pub sentry_address : String
  pub nft_token_ids : List ℕ
  pub total_value : ℕ
  pub signature : String
  pub expires_at : Stamp

unfoldable pub create : DelegationInput → Guarded ℕ
create input store =
    let id = suc (length store.delegations) in
    (
      ok id,
      record store {
        delegations =
            store.delegations
            ++ record {
              id = id;
              delegator_tg_id = input.delegator_tg_id;
              sentry_address = input.sentry_address;
              nft_token_ids = input.nft_token_ids;
              total_value = input.total_value;
              signature = input.signature;
              expires_at = input.expires_at;
              is_active = true;
            }
              ∷ [];
      },
    )

unfoldable pub get_by_id : ℕ → Store → Option Delegation
get_by_id id store = find (λ d. d.id == id) store.delegations

-- `is_active = 1 AND expires_at > datetime('now')`, a comparison of texts.
unfoldable pub is_live : ℕ → Delegation → Bool
is_live now d = d.is_active && not (text_le d.expires_at (sql_now now))

unfoldable pub get_for_sentry : ℕ → String → Store → List Delegation
get_for_sentry now sentry store =
    filter (λ d. str_eq d.sentry_address sentry && is_live now d) store.delegations

unfoldable pub get_by_delegator : ℕ → String → Store → List Delegation
get_by_delegator now delegator store =
    filter (λ d. str_eq d.delegator_tg_id delegator && is_live now d) store.delegations

abbrev pub deactivate : Delegation → Delegation
deactivate d = record d { is_active = false }

-- Only the delegator can revoke.
unfoldable pub revoke : ℕ → String → Guarded Bool
revoke id delegator store =
    let mine = λ (d : Delegation). d.id == id && str_eq d.delegator_tg_id delegator in
    (
      ok (any mine store.delegations),
      record store { delegations = update mine deactivate store.delegations },
    )

unfoldable pub expire_old : ℕ → Guarded ℕ
expire_old now store =
    let old = λ (d : Delegation). d.is_active && text_le d.expires_at (sql_now now) in
    (
      ok (length (filter old store.delegations)),
      record store { delegations = update old deactivate store.delegations },
    )

-- What the fund manager answers for a token: nothing, or the balance and whether it is active.
abbrev pub NftInfo : Type 0
NftInfo = ℕ → Option (ℕ × Bool)

unfoldable pub fetched_value : NftInfo → List ℕ → ℕ
fetched_value info [] = 0
fetched_value info (token ∷ rest) = elim (info token) [
  | none ↦ fetched_value info rest
  | some r ↦ (if r.1 then r.0 else 0) + fetched_value info rest
]

unfoldable pub revalue : NftInfo → ℕ → Delegation → Delegation
revalue info now d =
    if is_live now d then record d { total_value = fetched_value info d.nft_token_ids } else d

-- The number of delegations with a new value is the result.
unfoldable pub update_values : NftInfo → ℕ → Guarded ℕ
update_values info now store = (
  ok (
      length (
        filter (λ d. is_live now d && not (d.total_value == fetched_value info d.nft_token_ids))
          store.delegations)),
  record store { delegations = update (is_live now) (revalue info now) store.delegations },
)

pub record VotingPower : Type 0 where
  pub sentry_address : String
  pub own_value : ℕ
  pub delegated_value : ℕ
  pub total_power : ℕ
  pub delegation_count : ℕ

-- `own_value` is the callback `getOwnValue`, which reads the NFTs that the sentry has staked.
unfoldable pub get_voting_power : (String → ℕ) → ℕ → String → Store → VotingPower
get_voting_power own_value now sentry store =
    let rows = get_for_sentry now sentry store in
    record {
      sentry_address = sentry;
      own_value = own_value sentry;
      delegated_value = total (λ d. d.total_value) rows;
      total_power = own_value sentry + total (λ d. d.total_value) rows;
      delegation_count = length rows;
    }

unfoldable pub total_delegated_value : ℕ → Store → ℕ
total_delegated_value now store =
    total (λ d. d.total_value) (filter (is_live now) store.delegations)

pub record DelegationStats : Type 0 where
  pub active : ℕ
  pub expired : ℕ
  pub total_value : ℕ

unfoldable pub stats : ℕ → Store → DelegationStats
stats now store = record {
  active = length (filter (is_live now) store.delegations);
  expired =
      length
        (filter (λ d. not d.is_active || text_le d.expires_at (sql_now now)) store.delegations);
  total_value = total_delegated_value now store;
}
