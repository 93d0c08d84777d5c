-- ===== src/Guardian/Staking/Shared.antt =====
-- An NFT can be staked with several guardians, and counts for each.
use attested_capital.Base.{
  ltb, ℕ, suc, ◌+◌, ◌*◌, ◌≡◌, refl, ap, str_eq, str_eq_iff, not, String, true, false, none, some,
  List, [], ◌∷◌, ◌++◌, any, length, if◌then◌else◌, arith,
}
use attested_capital.Guardian.Staking.{
  restake_cooldown_ms, NftStake, Verifier, is_stake, last_unstaked, check_restake_cooldown,
  upsert_stake, stake_nft, stake_each, stake_nfts, is_active_at, get_active_stakes,
  get_total_staked_value,
}

never_unstaked :
    (guardian : String) (token_id : ℕ) (rows : List NftStake)
    → any (is_stake guardian token_id) rows ≡ false
    → last_unstaked guardian token_id rows ≡ none
unfolding last_unstaked
never_unstaked guardian token_id [] h = refl
never_unstaked guardian token_id (s ∷ rows) h =
    let other : is_stake guardian token_id s ≡ false = ground arith in
    rw other (never_unstaked guardian token_id rows (ground arith))

new_allowed :
    (now : ℕ) (guardian : String) (token_id : ℕ) (rows : List NftStake)
    → any (is_stake guardian token_id) rows ≡ false
    → check_restake_cooldown now guardian token_id rows ≡ true
unfolding check_restake_cooldown
new_allowed now guardian token_id rows h =
    ap (λ o. elim o [ none ↦ true | some t ↦ not (ltb now (t * 1000 + restake_cooldown_ms)) ])
      (never_unstaked guardian token_id rows h)

total-last :
    (guardian : String) (rows : List NftStake) (s : NftStake)
    → get_total_staked_value guardian (rows ++ s ∷ [])
      ≡ get_total_staked_value guardian rows
        + (if is_active_at guardian s then s.current_value else 0)
unfolding get_total_staked_value get_active_stakes
total-last guardian [] s = ground arith
total-last guardian (x ∷ rows) s = ground (arith, total-last guardian rows s)

-- The row of a first stake.
abbrev first_stake : String → String → ℕ → ℕ → List NftStake → NftStake
first_stake guardian owner token_id value rows = record {
  id = suc (length rows);
  guardian_address = guardian;
  owner_tg_id = owner;
  token_id = token_id;
  current_value = value;
  is_active = true;
  unstaked_at = none;
}

-- An NFT that its owner has not staked with a guardian before is staked there, whether or not it is
-- staked with other guardians: it adds its value to this guardian's, and theirs stays as it was.
pub stake_nfts-shared :
    (verify : Verifier) (now : ℕ) (guardian owner : String) (token_id value : ℕ)
    (rows : List NftStake)
    → any (is_stake guardian token_id) rows ≡ false
    → verify token_id owner ≡ some value
    → (left : List NftStake) × (stake_nfts verify now guardian owner (token_id ∷ []) rows
        ≡ (record { staked = token_id ∷ []; failed = [] }, left))
      × (get_total_staked_value guardian left ≡ get_total_staked_value guardian rows + value)
      × ((other : String)
          → str_eq guardian other ≡ false
          → get_total_staked_value other left ≡ get_total_staked_value other rows)
unfolding stake_nfts stake_each stake_nft upsert_stake is_active_at
stake_nfts-shared verify now guardian owner token_id value rows new owned =
    let allowed = new_allowed now guardian token_id rows new in
    let own : str_eq guardian guardian ≡ true = (str_eq_iff guardian guardian).1 refl in
    let s = first_stake guardian owner token_id value rows in
    (
      rows ++ s ∷ [],
      rw (allowed, owned, new) refl,
      ground (arith, total-last guardian rows s),
      λ other h. ground (arith, total-last other rows s),
    )
