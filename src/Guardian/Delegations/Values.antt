-- ===== src/Guardian/Delegations/Values.antt =====
-- What an hourly update makes of the values of the delegations.
use attested_capital.Base.{
  ℕ, ◌≡◌, refl, ◌&&◌, str_eq, String, none, List, [], ◌∷◌, filter, update, total, arith,
}
use attested_capital.Action.{after}
use attested_capital.Guardian.{Delegation, Store}
use attested_capital.Guardian.Delegations.{
  NftInfo, is_live, fetched_value, revalue, update_values, get_for_sentry, get_voting_power,
}

nothing_fetched :
    (info : NftInfo) (tokens : List ℕ)
    → ((token : ℕ) → info token ≡ none)
    → fetched_value info tokens ≡ 0
unfolding fetched_value
nothing_fetched info [] gone = refl
nothing_fetched info (token ∷ tokens) gone =
    ground (arith, gone token, nothing_fetched info tokens gone)

worthless :
    (info : NftInfo) (now : ℕ) (sentry : String) (rows : List Delegation)
    → ((token : ℕ) → info token ≡ none)
    → total
        (λ d. d.total_value)
        (filter
          (λ d. str_eq d.sentry_address sentry && is_live now d)
          (update (is_live now) (revalue info now) rows))
      ≡ 0
unfolding is_live revalue
worthless info now sentry [] gone = refl
worthless info now sentry (d ∷ rows) gone =
    ground (arith, nothing_fetched info d.nft_token_ids gone, worthless info now sentry rows gone)

-- If the fund manager cannot be reached during an update, then no live delegation keeps its value:
-- afterwards a sentry has only the power of its own stakes.
pub update_values-unreachable :
    (own_value : String → ℕ) (info : NftInfo) (now : ℕ) (sentry : String) (store : Store)
    → ((token : ℕ) → info token ≡ none)
    → (get_voting_power own_value now sentry (after (update_values info now store))).total_power
      ≡ own_value sentry
unfolding get_voting_power update_values get_for_sentry
update_values-unreachable own_value info now sentry store gone =
    omega (arith, worthless info now sentry store.delegations gone)
