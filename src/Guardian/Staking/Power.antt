-- ===== src/Guardian/Staking/Power.antt =====
-- What stakes count for, and when an NFT can be staked again.
use attested_capital.Base.{
  ℕ, ◌+◌, ◌*◌, ◌/◌, max, ◌≤◌, ◌<◌, ◌==◌, ◌≡◌, refl, ◌∙◌, ap, ltb, str_eq, not, ◌&&◌, String, Bool,
  Bool-cases, inl, inr, true, false, Option, none, some, List, [], ◌∷◌, All, any, filter, update,
  if◌then◌else◌, arith,
}
use attested_capital.Guardian.Staking.{
  NftStake, cooldown_active, Verifier, restake_cooldown_ms, is_stake, last_unstaked,
  check_restake_cooldown, stake_nft, stake_each, stake_nfts, is_active_at, unstake, unstake_all,
  get_active_stakes, get_total_staked_value, has_active_stakes, reverify_row, reverify,
}

unstaked-none :
    (now : ℕ) (guardian : String) (rows : List NftStake)
    → filter (is_active_at guardian) (update (is_active_at guardian) (unstake now) rows) ≡ []
unfolding is_active_at unstake
unstaked-none now guardian [] = refl
unstaked-none now guardian (s ∷ rows) = ground (arith, unstaked-none now guardian rows)

-- The latest of a row and the rest.
abbrev latest : Bool → Option ℕ → Option ℕ → Option ℕ
latest b o rest =
    if b
    then elim o [
      | none ↦ rest
      | some at ↦ elim rest [ none ↦ some at | some other ↦ some (max at other) ]
    ]
    else rest

latest-rest :
    (b : Bool) (o rest : Option ℕ) (n at : ℕ)
    → rest ≡ some at
    → n ≤ at
    → (x : ℕ) × (latest b o rest ≡ some x) × (n ≤ x)
latest-rest false o rest n at e h = (at, e, h)
latest-rest true none rest n at e h = (at, e, h)
latest-rest true (some m) rest n at e h = (max m at, rw e refl, omega arith)

latest-own : (rest : Option ℕ) (n : ℕ) → (x : ℕ) × (latest true (some n) rest ≡ some x) × (n ≤ x)
latest-own none n = (n, refl, omega arith)
latest-own (some m) n = (max n m, refl, omega arith)

unstaked-last :
    (now : ℕ) (guardian : String) (token_id : ℕ) (rows : List NftStake)
    → any (λ s. is_active_at guardian s && s.token_id == token_id) rows ≡ true
    → (at : ℕ) × (last_unstaked guardian token_id
          (update (is_active_at guardian) (unstake now) rows)
        ≡ some at)
      × (now / 1000 ≤ at)
unfolding last_unstaked is_stake is_active_at unstake
unstaked-last now guardian token_id [] h = cc
unstaked-last now guardian token_id (s ∷ rows) h =
    elim (Bool-cases (is_active_at guardian s && s.token_id == token_id)) [
      | inl own ↦
          let active : is_active_at guardian s ≡ true = ground arith in
          let here : str_eq s.guardian_address guardian ≡ true = ground arith in
          let same : (s.token_id == token_id) ≡ true = ground arith in
          rw (active, here, same) (latest-own _ (now / 1000))
      | inr other ↦
          let rest = unstaked-last now guardian token_id rows (ground arith) in
          latest-rest _ _ _ (now / 1000) rest.0 rest.1 rest.2
    ]

cooldown_refuses :
    (now : ℕ) (guardian : String) (token_id : ℕ) (rows : List NftStake) (at : ℕ)
    → last_unstaked guardian token_id rows ≡ some at
    → ltb now (at * 1000 + restake_cooldown_ms) ≡ true
    → check_restake_cooldown now guardian token_id rows ≡ false
unfolding check_restake_cooldown
cooldown_refuses now guardian token_id rows at h waits =
    ap (λ o. elim o [ none ↦ true | some t ↦ not (ltb now (t * 1000 + restake_cooldown_ms)) ]) h
    ∙ ap not waits

-- Once a guardian's stakes are withdrawn, nothing counts for it, and each NFT that did is refused
-- there for seven days from the second of the withdrawal on, with nothing changed.
pub unstake_all-cooldown :
    (verify : Verifier) (now later : ℕ) (guardian owner : String) (token_id : ℕ)
    (rows : List NftStake)
    → any (λ s. is_active_at guardian s && s.token_id == token_id) rows ≡ true
    → later < now / 1000 * 1000 + restake_cooldown_ms
    → (left : List NftStake) × ((unstake_all now guardian rows).1 ≡ left)
      × (get_total_staked_value guardian left ≡ 0)
      × (has_active_stakes guardian left ≡ false)
      × (stake_nfts verify later guardian owner (token_id ∷ []) left
          ≡ (record { staked = []; failed = (token_id, cooldown_active) ∷ [] }, left))
unfolding unstake_all get_total_staked_value has_active_stakes get_active_stakes stake_nfts
    stake_each stake_nft
unstake_all-cooldown verify now later guardian owner token_id rows was soon =
    let at = unstaked-last now guardian token_id rows was in
    let none_left = unstaked-none now guardian rows in
    let left = (unstake_all now guardian rows).1 in
    let waits : ltb later (at.0 * 1000 + restake_cooldown_ms) ≡ true = ground (arith, at.2) in
    let cooling : check_restake_cooldown later guardian token_id left ≡ false =
      cooldown_refuses later guardian token_id left at.0 at.1 waits in
    (_, refl, rw none_left refl, rw none_left refl, rw cooling refl)

-- An active stake is one that the fund manager confirms at its value.
abbrev pub IsConfirmed : Verifier → NftStake → Type 0
IsConfirmed verify s = s.is_active ≡ true → verify s.token_id s.owner_tg_id ≡ some s.current_value

-- After a verification every active stake is owned by its owner and counts for its value, as the
-- fund manager answers.
pub reverify-IsConfirmed :
    (verify : Verifier) (now : ℕ) (rows : List NftStake)
    → All (IsConfirmed verify) (reverify verify now rows)
unfolding reverify reverify_row unstake
reverify-IsConfirmed verify now [] = tt
reverify-IsConfirmed verify now (s ∷ rows) = (ground arith, reverify-IsConfirmed verify now rows)
