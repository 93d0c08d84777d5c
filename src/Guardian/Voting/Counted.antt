-- ===== src/Guardian/Voting/Counted.antt =====
-- What an accepted ballot does to the tally.
use attested_capital.Base.{
  ℕ, ◌+◌, ◌≡◌, refl, str_eq, str_eq_iff, String, Bool, Bool-cases, inl, inr, not, some, List, [],
  ◌∷◌, ◌++◌, filter, if◌then◌else◌, arith,
}
use attested_capital.Action.{ok, ◌>>=◌}
use attested_capital.Guardian.{Vote, Store}
use attested_capital.Guardian.Proposals.{get_by_id}
use attested_capital.Guardian.Voting.{
  CastVoteInput, TallyResult, cast_vote, get_votes, tally_of, tally,
}
use attested_capital.Guardian.Voting.Ballots.{cast_vote_lem}
use attested_capital.Guardian.Voting.Tallies.{power, tally_of-counts}

-- The power on a side, with one vote more at the end.
side_power :
    (side : Vote → Bool) (votes : List Vote) (v : Vote)
    → power (filter side (votes ++ v ∷ []))
      ≡ power (filter side votes) + (if side v then v.voting_power else 0)
side_power side [] v = ground arith
side_power side (w ∷ votes) v = ground (arith, side_power side votes v)

get_votes-last :
    (id : String) (votes : List Vote) (v : Vote)
    → v.proposal_id ≡ id
    → filter (λ w. str_eq w.proposal_id id) (votes ++ v ∷ [])
      ≡ filter (λ w. str_eq w.proposal_id id) votes ++ v ∷ []
get_votes-last id [] v same = rw ((str_eq_iff _ _).1 same) refl
get_votes-last id (w ∷ votes) v same = elim (Bool-cases (str_eq w.proposal_id id)) [
  | inl own ↦ rw (own, get_votes-last id votes v same) refl
  | inr other ↦ rw (other, get_votes-last id votes v same) refl
]

-- A ballot that is accepted adds its power to its own side of the tally of its proposal, and
-- nothing to the other side.
pub cast_vote-counted :
    (own_value : String → ℕ) (now pool : ℕ) (input : CastVoteInput) (store t : Store) (r : ℕ × ℕ)
    → cast_vote own_value now input store ≡ (ok r, t)
    → (before : TallyResult) × (later : TallyResult) × (tally input.proposal_id pool store
        ≡ (ok before, store))
      × (tally input.proposal_id pool t ≡ (ok later, t))
      × (later.approve_power ≡ before.approve_power + (if input.approve then r.1 else 0))
      × (later.reject_power ≡ before.reject_power + (if input.approve then 0 else r.1))
unfolding tally get_votes ◌>>=◌ get_by_id
cast_vote-counted own_value now pool input store t r cast =
    elim (cast_vote_lem own_value now input store) [
      | inl (e, refused) ↦ absurd (cc)
      | inr (v, a) ↦
          let left : t ≡ record store { votes = store.votes ++ v ∷ [] } = cc in
          let paid : r.1 ≡ v.voting_power = cc in
          let votes = get_votes input.proposal_id store in
          let more : get_votes input.proposal_id t ≡ votes ++ v ∷ [] =
            rw left (get_votes-last input.proposal_id store.votes v (rw a.row refl)) in
          let side : v.approve ≡ input.approve = rw a.row refl in
          let kept : get_by_id input.proposal_id t ≡ some a.proposal = rw left a.found in
          let counts = tally_of-counts a.proposal votes pool in
          let counts_after = tally_of-counts a.proposal (votes ++ v ∷ []) pool in
          (
            tally_of a.proposal votes pool,
            tally_of a.proposal (votes ++ v ∷ []) pool,
            rw a.found refl,
            rw (kept, more) refl,
            ground (arith, counts, counts_after, side_power (λ w. w.approve) votes v),
            ground (arith, counts, counts_after, side_power (λ w. not w.approve) votes v),
          )
    ]
