-- ===== src/Guardian/Voting/Tallies.antt =====
-- A tally against the votes themselves.
use mathlib.Core.List.{Perm, Permᴰ}
use mathlib.Core.Logic.{∥∥₁_elim}
use attested_capital.Base.{
  ℕ, suc, ◌+◌, ◌*◌, ◌≤◌, ◌<◌, ◌≡◌, ◌∙◌, ◌↔◌, ◌⊎◌, inl, inr, ap, refl, ltb, not, true, Bool-cases,
  List, [], ◌∷◌, filter, length, total, arith,
}
use attested_capital.Guardian.{Proposal, Vote}
use attested_capital.Guardian.Voting.{Count, no_votes, count_vote, count_votes, reaches, tally_of}

abbrev pub approving : List Vote → List Vote
approving = filter (λ v. v.approve)

abbrev pub rejecting : List Vote → List Vote
rejecting = filter (λ v. not v.approve)

abbrev pub power : List Vote → ℕ
power = total (λ v. v.voting_power)

count_votes-sums :
    (c : Count) (votes : List Vote)
    → ((count_votes c votes).approve_power ≡ c.approve_power + power (approving votes))
      × ((count_votes c votes).reject_power ≡ c.reject_power + power (rejecting votes))
      × ((count_votes c votes).approve_votes ≡ c.approve_votes + length (approving votes))
      × ((count_votes c votes).reject_votes ≡ c.reject_votes + length (rejecting votes))
unfolding count_votes count_vote
count_votes-sums c [] = (omega arith, omega arith, omega arith, omega arith)
count_votes-sums c (v ∷ votes) =
    let rest = count_votes-sums (count_vote c v) votes in
    (ground (arith, rest), ground (arith, rest), ground (arith, rest), ground (arith, rest))

split_power : (votes : List Vote) → power (approving votes) + power (rejecting votes) ≡ power votes
split_power [] = refl
split_power (v ∷ votes) = ground (arith, split_power votes)

split_length :
    (votes : List Vote) → length (approving votes) + length (rejecting votes) ≡ length votes
split_length [] = refl
split_length (v ∷ votes) = ground (arith, split_length votes)

-- A tally counts each vote once, on its side, with its power.
pub tally_of-counts :
    (p : Proposal) (votes : List Vote) (pool : ℕ)
    → ((tally_of p votes pool).approve_power ≡ power (approving votes))
      × ((tally_of p votes pool).reject_power ≡ power (rejecting votes))
      × ((tally_of p votes pool).total_power ≡ power votes)
      × ((tally_of p votes pool).approve_votes ≡ length (approving votes))
      × ((tally_of p votes pool).reject_votes ≡ length (rejecting votes))
      × ((tally_of p votes pool).approve_votes + (tally_of p votes pool).reject_votes
          ≡ length votes)
unfolding tally_of
tally_of-counts p votes pool =
    let sums = count_votes-sums no_votes votes in
    (
      omega (arith, sums.0),
      omega (arith, sums.1),
      omega (arith, sums, split_power votes),
      omega (arith, sums.2),
      omega (arith, sums.3),
      omega (arith, sums, split_length votes),
    )

reaches_lem :
    (approve pool threshold : ℕ)
    → (reaches approve pool threshold ≡ true)
      ↔ ((threshold * pool ≤ approve * 100) × ((0 < pool) ⊎ (threshold ≡ 0)))
unfolding reaches
reaches_lem approve pool threshold = elim (Bool-cases (ltb 0 pool)) [
  | inl some_pool ↦ rw some_pool ((λ h. (ground arith, inl (ground arith)), λ h. ground arith))
  | inr no_pool ↦ rw no_pool ((λ h. (ground arith, inr (ground arith)), λ h. ground arith))
]

-- A proposal passes exactly where somebody voted and the approving power is at least the threshold's
-- part of the pool. Of an empty pool only a threshold of 0 is reached.
pub tally_of-passed :
    (p : Proposal) (votes : List Vote) (pool : ℕ)
    → ((tally_of p votes pool).passed ≡ true) ↔ (
        (0 < length votes)
        × (p.threshold_pct * pool ≤ power (approving votes) * 100)
        × ((0 < pool) ⊎ (p.threshold_pct ≡ 0)))
unfolding tally_of
tally_of-passed p votes pool =
    let counted = (tally_of-counts p votes pool).0 in
    let lem = reaches_lem (power (approving votes)) pool p.threshold_pct in
    elim (Bool-cases (ltb 0 (length votes))) [
      | inl some_vote ↦
          rw (some_vote, counted)
            (λ h. (ground arith, (lem.0 h).0, (lem.0 h).1), λ h. lem.1 (h.1, h.2))
      | inr no_vote ↦ rw no_vote (λ h. cc, λ h. ground arith)
    ]

-- Two votes may be counted in either order.
count_votes-swap :
    (c : Count) (v w : Vote) → count_vote (count_vote c v) w ≡ count_vote (count_vote c w) v
unfolding count_vote
count_votes-swap c v w = grind arith

count_votes-Permᴰ :
    {xs ys : List Vote} (c : Count) → Permᴰ xs ys → count_votes c xs ≡ count_votes c ys
unfolding count_votes
count_votes-Permᴰ c Permᴰ.nil = refl
count_votes-Permᴰ c (Permᴰ.cons e d) = rw e (count_votes-Permᴰ _ d)
count_votes-Permᴰ c (Permᴰ.swap {l = l} e f) =
    rw (e, f) (ap (λ x. count_votes x l) (count_votes-swap c _ _))
count_votes-Permᴰ c (Permᴰ.trans d e) = count_votes-Permᴰ c d ∙ count_votes-Permᴰ c e

length-Permᴰ : {xs ys : List Vote} → Permᴰ xs ys → length xs ≡ length ys
length-Permᴰ Permᴰ.nil = refl
length-Permᴰ (Permᴰ.cons e d) = ap suc (length-Permᴰ d)
length-Permᴰ (Permᴰ.swap e f) = refl
length-Permᴰ (Permᴰ.trans d e) = length-Permᴰ d ∙ length-Permᴰ e

count_votes-Perm :
    {xs ys : List Vote} (c : Count) → Perm xs ys → count_votes c xs ≡ count_votes c ys
count_votes-Perm c same = ∥∥₁_elim same (hlevel) (count_votes-Permᴰ c)

-- The order of the votes does not matter to a tally.
pub tally_of-Perm :
    (p : Proposal) (xs ys : List Vote) (pool : ℕ)
    → Perm xs ys
    → tally_of p xs pool ≡ tally_of p ys pool
unfolding tally_of
tally_of-Perm p xs ys pool same =
    let counted = count_votes-Perm no_votes same in
    let lengths : length xs ≡ length ys = ∥∥₁_elim same (hlevel) length-Permᴰ in
    rw (counted, lengths) refl
