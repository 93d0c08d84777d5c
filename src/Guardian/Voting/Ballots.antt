-- ===== src/Guardian/Voting/Ballots.antt =====
-- One ballot per voter and proposal, and what a ballot adds to the tally.
use attested_capital.Base.{
  ◌⊎◌, inl, inr, Option-cases, Bool-cases, if◌then◌else◌, ltb→lt, ℕ, suc, ◌+◌, ◌≤◌, ◌<◌, ◌≡◌, refl,
  ltb, str_eq, str_eq_iff, sym, ◌&&◌, String, Bool, true, false, some, List, [], ◌∷◌, ◌++◌, any,
  length, total, total-append, arith,
}
use attested_capital.Action.{ok, err, ◌>>=◌, ◌>>◌, after}
use attested_capital.Guardian.{
  Proposal, ProposalStatus, Vote, Store, Error, constraint, proposal_not_found, not_active,
  deadline_passed, no_voting_power,
}
use attested_capital.Guardian.Clock.{millis}
use attested_capital.Guardian.Proposals.{get_by_id, has_status}
use attested_capital.Guardian.Delegations.{get_voting_power}
use attested_capital.Guardian.Voting.{CastVoteInput, has_voted, insert_vote, cast_vote}

abbrev pub is_ballot : String → String → Vote → Bool
is_ballot proposal_id voter v = str_eq v.proposal_id proposal_id && str_eq v.voter_address voter

-- How many ballots a voter has in a vote on a proposal.
abbrev pub ballots : String → String → List Vote → ℕ
ballots proposal_id voter = total (λ v. if is_ballot proposal_id voter v then 1 else 0)

abbrev pub OneBallot : Store → Type 0
OneBallot store = (proposal_id voter : String) → ballots proposal_id voter store.votes ≤ 1

unvoted-ballots :
    (proposal_id voter : String) (votes : List Vote)
    → any (is_ballot proposal_id voter) votes ≡ false
    → ballots proposal_id voter votes ≡ 0
unvoted-ballots proposal_id voter [] h = refl
unvoted-ballots proposal_id voter (v ∷ votes) h =
    ground (arith, unvoted-ballots proposal_id voter votes)

-- The row of a ballot.
abbrev pub ballot_of : CastVoteInput → ℕ → Store → Vote
ballot_of input power store = record {
  id = suc (length store.votes);
  proposal_id = input.proposal_id;
  voter_address = input.voter_address;
  approve = input.approve;
  voting_power = power;
  attestation = input.attestation;
}

-- What an accepted ballot has passed, in an open vote before its deadline, and what it adds.
pub record Accepted (own_value : String → ℕ) (now : ℕ) (input : CastVoteInput) (store : Store)
    (v : Vote) : Type 0 where
  pub proposal : Proposal
  pub found : get_by_id input.proposal_id store ≡ some proposal
  pub active : has_status ProposalStatus.active proposal ≡ true
  pub in_time : now < millis proposal.deadline
  pub first : has_voted input.proposal_id input.voter_address store ≡ false
  pub power : 0 < v.voting_power
  pub row :
      v
      ≡ ballot_of input (get_voting_power own_value now input.voter_address store).total_power store
  pub result :
      cast_vote own_value now input store
      ≡ (ok (v.id, v.voting_power), record store { votes = store.votes ++ v ∷ [] })

module _ (own_value : String → ℕ) (now : ℕ) (input : CastVoteInput) (store : Store) where
  -- A refused ballot leaves no trace. An accepted one is the only row that is added: in an open
  -- vote on a proposal that exists, before its deadline, the voter's first, and with all of the
  -- voter's power of that moment, which is positive.
  pub cast_vote_lem :
      ((e : Error) × (cast_vote own_value now input store ≡ (err e, store)))
      ⊎ ((v : Vote) × Accepted own_value now input store v)
  unfolding cast_vote insert_vote ◌>>=◌ ◌>>◌
  cast_vote_lem = elim (Option-cases (get_by_id input.proposal_id store)) [
    | inl missing ↦ inl (proposal_not_found, rw missing refl)
    | inr (p, found) ↦ elim (Bool-cases (has_status ProposalStatus.active p)) [
      | inr closed ↦ inl (not_active, rw (found, closed) refl)
      | inl active ↦ elim (Bool-cases (ltb now (millis p.deadline))) [
        | inr late ↦ inl (deadline_passed, rw (found, active, late) refl)
        | inl early ↦
            elim (Bool-cases
              (ltb 0 (get_voting_power own_value now input.voter_address store).total_power)) [
                | inr powerless ↦ inl (no_voting_power, rw (found, active, early, powerless) refl)
                | inl powered ↦
                    elim (Bool-cases (has_voted input.proposal_id input.voter_address store)) [
                      | inl again ↦ inl (constraint, rw (found, active, early, powered, again) refl)
                      | inr first ↦ inr (
                        ballot_of input _ store,
                        record {
                          proposal = p;
                          found = found;
                          active = active;
                          in_time = ltb→lt _ _ early;
                          first = first;
                          power = ltb→lt _ _ powered;
                          row = refl;
                          result = rw (found, active, early, powered, first) refl;
                        },
                      )
                    ]
              ]
      ]
    ]
  ]

ballots-append :
    (proposal_id voter : String) (votes : List Vote) (v : Vote)
    → ballots proposal_id voter (votes ++ v ∷ [])
      ≡ ballots proposal_id voter votes + (if is_ballot proposal_id voter v then 1 else 0)
ballots-append proposal_id voter votes v =
    omega (arith, total-append (λ v. if is_ballot proposal_id voter v then 1 else 0) votes (v ∷ []))

is_ballot-eq :
    (proposal_id voter : String) (v : Vote)
    → is_ballot proposal_id voter v ≡ true
    → (v.proposal_id ≡ proposal_id) × (v.voter_address ≡ voter)
is_ballot-eq proposal_id voter v h =
    let both : (str_eq v.proposal_id proposal_id ≡ true) × (str_eq v.voter_address voter ≡ true) =
      (ground arith, ground arith) in
    ((str_eq_iff _ _).0 both.0, (str_eq_iff _ _).0 both.1)

-- The ballots of a voter and a proposal after the first one of either.
first_ballot :
    (store : Store) (v : Vote) (proposal_id voter : String)
    → OneBallot store
    → has_voted v.proposal_id v.voter_address store ≡ false
    → ballots proposal_id voter (store.votes ++ v ∷ []) ≤ 1
unfolding has_voted
first_ballot store v proposal_id voter h first = elim (Bool-cases (is_ballot proposal_id voter v)) [
  | inr other ↦ ground (arith, h proposal_id voter, ballots-append proposal_id voter store.votes v)
  | inl own ↦
      let same = is_ballot-eq proposal_id voter v own in
      let none_yet : ballots proposal_id voter store.votes ≡ 0 =
        unvoted-ballots proposal_id voter store.votes (rw (sym same.0, sym same.1) first) in
      ground (arith, none_yet, ballots-append proposal_id voter store.votes v)
]

module _ (own_value : String → ℕ) (now : ℕ) (input : CastVoteInput) (store : Store) where
  -- At most one ballot of each voter on each proposal, whatever is cast.
  pub cast_vote-OneBallot :
      OneBallot store → OneBallot (after (cast_vote own_value now input store))
  cast_vote-OneBallot h proposal_id voter = elim (cast_vote_lem own_value now input store) [
    | inl (e, refused) ↦ rw refused (h proposal_id voter)
    | inr (v, a) ↦ rw a.result (first_ballot store v proposal_id voter h (rw a.row a.first))
  ]

any-last :
    (proposal_id voter : String) (votes : List Vote) (v : Vote)
    → v.proposal_id ≡ proposal_id
    → v.voter_address ≡ voter
    → any (is_ballot proposal_id voter) (votes ++ v ∷ []) ≡ true
any-last proposal_id voter [] v p q = rw ((str_eq_iff _ _).1 p, (str_eq_iff _ _).1 q)
any-last proposal_id voter (w ∷ votes) v p q =
    ground (arith, any-last proposal_id voter votes v p q)

-- Once a voter's ballot on a proposal is accepted, no later one of theirs on it is, whatever it
-- says and whenever it comes, and it leaves no trace.
pub cast_vote-only_once :
    (own_value : String → ℕ) (now later : ℕ) (input again : CastVoteInput) (store t : Store)
    (r : ℕ × ℕ)
    → cast_vote own_value now input store ≡ (ok r, t)
    → again.proposal_id ≡ input.proposal_id
    → again.voter_address ≡ input.voter_address
    → (e : Error) × (cast_vote own_value later again t ≡ (err e, t))
unfolding has_voted
cast_vote-only_once own_value now later input again store t r cast p q =
    elim (cast_vote_lem own_value later again t) [
      | inl refused ↦ refused
      | inr (w, b) ↦ elim (cast_vote_lem own_value now input store) [
        | inl (e, refused) ↦ cc
        | inr (v, a) ↦
            let left : t ≡ record store { votes = store.votes ++ v ∷ [] } = cc in
            let listed : any (is_ballot again.proposal_id again.voter_address) t.votes ≡ true =
              rw left (any-last _ _ store.votes v (rw a.row (sym p)) (rw a.row (sym q))) in
            cc
      ]
    ]
