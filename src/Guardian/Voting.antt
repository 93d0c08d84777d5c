-- ===== src/Guardian/Voting.antt =====
-- guardian-network/src/sentry/voting.ts: cast votes, tally and resolve proposals. A percentage is
-- compared as an exact fraction.
pub mod Ballots
pub mod Tallies
pub mod Counted
pub mod Due
pub mod Resolution
use attested_capital.Base.{
  ℕ, zero, suc, ◌+◌, ◌*◌, ltb, leb, str_eq, ◌&&◌, not, String, Bool, true, false, Option, none,
  some, List, [], ◌∷◌, ◌++◌, any, filter, length, total, if◌then◌else◌,
}
use attested_capital.Action.{ok, err, pure, gets, or_throw, modify, require, ◌>>=◌, ◌>>◌}
use attested_capital.Guardian.{
  Proposal, ProposalStatus, Vote, Store, Error, proposal_not_found, not_active, deadline_passed,
  no_voting_power, constraint, Guarded,
}
use attested_capital.Guardian.Clock.{millis}
use attested_capital.Guardian.Proposals.{get_by_id, has_status, list_active, set_status}
use attested_capital.Guardian.Delegations.{get_voting_power}

pub record CastVoteInput : Type 0 where
  pub proposal_id : String
  pub voter_address : String
  pub approve : Bool
  pub attestation : Option String

unfoldable pub has_voted : String → String → Store → Bool
has_voted proposal_id voter store =
    any (λ v. str_eq v.proposal_id proposal_id && str_eq v.voter_address voter) store.votes

-- The INSERT, which UNIQUE(proposal_id, voter_address) refuses the second time.
unfoldable pub insert_vote : CastVoteInput → ℕ → Guarded ℕ
insert_vote input power store =
    if has_voted input.proposal_id input.voter_address store then (err constraint, store) else (
      ok (suc (length store.votes)),
      record store {
        votes =
            store.votes
            ++ record {
              id = suc (length store.votes);
              proposal_id = input.proposal_id;
              voter_address = input.voter_address;
              approve = input.approve;
              voting_power = power;
              attestation = input.attestation;
            }
              ∷ [];
      },
    )

-- The key of the vote and its power are the result.
unfoldable pub cast_vote : (String → ℕ) → ℕ → CastVoteInput → Guarded (ℕ × ℕ)
cast_vote own_value now input = do
  found ← gets (get_by_id input.proposal_id)
  proposal ← or_throw found proposal_not_found
  require (has_status ProposalStatus.active proposal) not_active
  require (ltb now (millis proposal.deadline)) deadline_passed
  power ← gets (get_voting_power own_value now input.voter_address)
  require (ltb 0 power.total_power) no_voting_power
  id ← insert_vote input power.total_power
  pure (id, power.total_power)

unfoldable pub get_votes : String → Store → List Vote
get_votes proposal_id store = filter (λ v. str_eq v.proposal_id proposal_id) store.votes

unfoldable pub get_voter_history : String → Store → List Vote
get_voter_history voter store = filter (λ v. str_eq v.voter_address voter) store.votes

pub record TallyResult : Type 0 where
  pub proposal_id : String
  pub approve_votes : ℕ
  pub reject_votes : ℕ
  pub approve_power : ℕ
  pub reject_power : ℕ
  pub total_power : ℕ
  pub total_pool_value : ℕ
  pub threshold_pct : ℕ
  pub passed : Bool
  pub quorum_met : Bool

-- The four counters of the loop over the votes.
pub record Count : Type 0 where
  pub approve_power : ℕ
  pub reject_power : ℕ
  pub approve_votes : ℕ
  pub reject_votes : ℕ

abbrev pub no_votes : Count
no_votes = record { approve_power = 0; reject_power = 0; approve_votes = 0; reject_votes = 0 }

unfoldable pub count_vote : Count → Vote → Count
count_vote c v =
    if v.approve
    then record c {
      approve_power = c.approve_power + v.voting_power;
      approve_votes = c.approve_votes + 1;
    }
    else record c {
      reject_power = c.reject_power + v.voting_power;
      reject_votes = c.reject_votes + 1;
    }

unfoldable pub count_votes : Count → List Vote → Count
count_votes c [] = c
count_votes c (v ∷ votes) = count_votes (count_vote c v) votes

-- `(approvePower / totalPoolValue) * 100 >= threshold`, where the percentage of no pool is 0.
unfoldable pub reaches : ℕ → ℕ → ℕ → Bool
reaches approve_power pool threshold =
    if ltb 0 pool then leb (threshold * pool) (approve_power * 100) else leb threshold 0

unfoldable pub tally_of : Proposal → List Vote → ℕ → TallyResult
tally_of proposal votes pool =
    let c = count_votes no_votes votes in
    let quorum = ltb 0 (length votes) in
    record {
      proposal_id = proposal.id;
      approve_votes = c.approve_votes;
      reject_votes = c.reject_votes;
      approve_power = c.approve_power;
      reject_power = c.reject_power;
      total_power = c.approve_power + c.reject_power;
      total_pool_value = pool;
      threshold_pct = proposal.threshold_pct;
      passed = quorum && reaches c.approve_power pool proposal.threshold_pct;
      quorum_met = quorum;
    }

unfoldable pub tally : String → ℕ → Guarded TallyResult
tally proposal_id pool = do
  found ← gets (get_by_id proposal_id)
  proposal ← or_throw found proposal_not_found
  votes ← gets (get_votes proposal_id)
  pure (tally_of proposal votes pool)

unfoldable pub resolve : String → ℕ → Guarded TallyResult
resolve proposal_id pool = do
  result ← tally proposal_id pool
  _ ←
      set_status proposal_id
        (if result.passed then ProposalStatus.passed else ProposalStatus.failed)
  pure result

-- The loop of `resolveExpired` over the proposals that were active when it began.
unfoldable pub resolve_each : ℕ → ℕ → List Proposal → Guarded (List TallyResult)
resolve_each now pool [] = pure []
resolve_each now pool (p ∷ rest) =
    let later = resolve_each now pool rest in
    if leb (millis p.deadline) now
    then (do result ← resolve p.id pool; results ← later; pure (result ∷ results))
    else later

unfoldable pub resolve_expired : ℕ → ℕ → Guarded (List TallyResult)
resolve_expired now pool = do active ← gets list_active; resolve_each now pool active
