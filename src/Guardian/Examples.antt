-- ===== src/Guardian/Examples.antt =====
-- The theorems on governance at a concrete store.

use attested_capital.Base.{
  ◌⊎◌, ℕ, ◌/◌, ◌≡◌, ◌≤◌, ◌<◌, ◌↔◌, refl, true, false, none, some, String, str_eq, List, [], ◌∷◌,
  All, if◌then◌else◌,
}
use attested_capital.Action.{ok, err, after, ◌>>=◌, ◌>>◌}
use attested_capital.Guardian.{Proposal, ProposalType, ProposalStatus, Vote, Store, Error}
use attested_capital.Guardian.Clock.{to_iso, millis, day_ms}
use attested_capital.Guardian.Proposals.{get_by_id, has_status, is_overdue, expire, expire_overdue}
use attested_capital.Guardian.Delegations.{get_voting_power, get_for_sentry}
use attested_capital.Guardian.Voting.{
  CastVoteInput, TallyResult, cast_vote, has_voted, insert_vote, tally, tally_of, resolve,
  resolve_expired,
}
use attested_capital.Guardian.Voting.Ballots.{Accepted, cast_vote_lem, cast_vote-only_once}
use attested_capital.Guardian.Voting.Tallies.{power, tally_of-passed}
use attested_capital.Guardian.Voting.Due.{verdict, is_due}
use attested_capital.Guardian.Voting.Resolution.{resolve-decides, resolve_expired-settles}
use attested_capital.Guardian.Jobs.Untallied.{expire_overdue-untallied}

abbrev proposal : Proposal
proposal = record {
  id = "p1";
  type = ProposalType.rpc_add;
  proposer = "sentry-1";
  description = "add an endpoint";
  payload = none;
  fund_id = none;
  status = ProposalStatus.active;
  threshold_pct = 75;
  deadline = to_iso 86_400_000;
}

abbrev ballot : String → CastVoteInput
ballot voter = record {
  proposal_id = "p1";
  voter_address = voter;
  approve = true;
  attestation = none;
}

abbrev store : Store
store = record { proposals = proposal ∷ []; votes = []; delegations = [] }

abbrev own_value : String → ℕ
own_value sentry = 80

abbrev vote : ℕ → ℕ → Vote
vote id power = record {
  id = id;
  proposal_id = "p1";
  voter_address = "sentry-1";
  approve = true;
  voting_power = power;
  attestation = none;
}

abbrev voted : Store
voted = record store { votes = vote 1 80 ∷ [] }

accepted : cast_vote own_value 5 (ballot "sentry-1") store ≡ (ok (1, 80), voted)
unfolding cast_vote insert_vote has_voted get_by_id has_status get_voting_power get_for_sentry
    millis to_iso ◌>>=◌ ◌>>◌
accepted = refl

cast_vote-only_once_example :
    (e : Error) × (cast_vote own_value 9 (ballot "sentry-1") voted ≡ (err e, voted))
cast_vote-only_once_example =
    cast_vote-only_once own_value 5 9 (ballot "sentry-1") (ballot "sentry-1") store voted (1, 80)
      accepted refl refl

cast_vote_lem_example :
    ((e : Error) × (cast_vote own_value 5 (ballot "sentry-1") store ≡ (err e, store)))
    ⊎ ((v : Vote) × Accepted own_value 5 (ballot "sentry-1") store v)
cast_vote_lem_example = cast_vote_lem own_value 5 (ballot "sentry-1") store

tally_of-passed_example :
    ((tally_of proposal voted.votes 100).passed ≡ true)
    ↔ ((0 < 1) × (7500 ≤ 8000) × ((0 < 100) ⊎ (proposal.threshold_pct ≡ 0)))
tally_of-passed_example = tally_of-passed proposal voted.votes 100

resolve-decides_example :
    (r : TallyResult) × (t : Store) × (resolve "p1" 100 voted ≡ (ok r, t))
    × (tally "p1" 100 voted ≡ (ok r, voted))
    × (get_by_id "p1" t ≡ some (record proposal { status = verdict r }))
    × ((other : String) → str_eq "p1" other ≡ false → get_by_id other t ≡ get_by_id other voted)
unfolding get_by_id
resolve-decides_example = resolve-decides "p1" 100 voted proposal refl

resolve_expired-settles_example :
    (rs : List TallyResult) × (t : Store) × (resolve_expired 86_400_001 100 voted ≡ (ok rs, t))
    × All (λ q. is_due 86_400_001 q ≡ false) t.proposals
resolve_expired-settles_example = resolve_expired-settles 86_400_001 100 voted

expire_overdue-untallied_example :
    (t : Store) × (after (expire_overdue 200_000_000 voted) ≡ t)
    × ((id : String) (p : Proposal)
        → get_by_id id voted ≡ some p
        → get_by_id id t ≡ some (if is_overdue 200_000_000 p then expire p else p))
    × All
        (λ q. is_due 200_000_000 q ≡ true → millis q.deadline / day_ms ≡ 200_000_000 / day_ms)
        t.proposals
expire_overdue-untallied_example =
    expire_overdue-untallied 200_000_000 voted ((86_400_000, refl), tt)

abbrev delegated : Store
delegated = record store {
  delegations =
      record {
        id = 1;
        delegator_tg_id = "bob";
        sentry_address = "sentry-1";
        nft_token_ids = 4 ∷ [];
        total_value = 70;
        signature = "s";
        expires_at = to_iso 900_000_000;
        is_active = true;
      }
      ∷ [];
}
