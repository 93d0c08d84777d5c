-- ===== src/Guardian/Staking/Examples.antt =====
-- The theorems on stakes at concrete rows.
use attested_capital.Base.{
  ◌+◌, ◌==◌, ◌&&◌, ◌≡◌, refl, str_eq, String, true, false, none, some, List, [], ◌∷◌, if◌then◌else◌,
  arith,
}
use attested_capital.Guardian.Staking.{
  NftStake, cooldown_active, Verifier, is_stake, is_active_at, stake_nfts, unstake_all,
  get_total_staked_value, has_active_stakes,
}
use attested_capital.Guardian.Staking.Power.{unstake_all-cooldown}
use attested_capital.Guardian.Staking.Shared.{stake_nfts-shared}

-- Alice owns the NFT 7, which is worth 500 cents.
abbrev owns : Verifier
owns token_id owner = if token_id == 7 && str_eq owner "alice" then some 500 else none

abbrev stakes : List NftStake
stakes =
    record {
      id = 1;
      guardian_address = "g1";
      owner_tg_id = "alice";
      token_id = 7;
      current_value = 400;
      is_active = true;
      unstaked_at = none;
    }
    ∷ []

unstake_all-cooldown_example :
    (left : List NftStake) × ((unstake_all 5_000 "g1" stakes).1 ≡ left)
    × (get_total_staked_value "g1" left ≡ 0)
    × (has_active_stakes "g1" left ≡ false)
    × (stake_nfts owns 6_000 "g1" "alice" (7 ∷ []) left
        ≡ (record { staked = []; failed = (7, cooldown_active) ∷ [] }, left))
unfolding is_active_at
unstake_all-cooldown_example =
    unstake_all-cooldown owns 5_000 6_000 "g1" "alice" 7 stakes refl (omega arith)

stake_nfts-shared_example :
    (left : List NftStake) × (stake_nfts owns 6_000 "g2" "alice" (7 ∷ []) stakes
      ≡ (record { staked = 7 ∷ []; failed = [] }, left))
    × (get_total_staked_value "g2" left ≡ get_total_staked_value "g2" stakes + 500)
    × ((other : String)
        → str_eq "g2" other ≡ false
        → get_total_staked_value other left ≡ get_total_staked_value other stakes)
unfolding is_stake
stake_nfts-shared_example = stake_nfts-shared owns 6_000 "g2" "alice" 7 500 stakes refl refl
