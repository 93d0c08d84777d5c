-- ===== src/Guardian/Jobs.antt =====
-- guardian-network/src/guardian/main.ts: the background jobs that write governance.
pub mod Untallied
use attested_capital.Base.{ℕ, ltb, Bool, List, [], if◌then◌else◌}
use attested_capital.Action.{pure, ◌>>=◌, ◌>>◌}
use attested_capital.Guardian.{Guarded}
use attested_capital.Guardian.Proposals.{expire_overdue}
use attested_capital.Guardian.Delegations.{NftInfo, expire_old, update_values}
use attested_capital.Guardian.Voting.{TallyResult, resolve_expired}

-- Every five minutes, on a sentry: expire first, then resolve, where the pool has a value.
unfoldable pub resolution_job : Bool → ℕ → ℕ → Guarded (List TallyResult)
resolution_job is_sentry now pool =
    if is_sentry
    then (do _ ← expire_overdue now; if ltb 0 pool then resolve_expired now pool else pure [])
    else pure []

-- Every hour, the part that writes delegations.
unfoldable pub delegation_job : NftInfo → ℕ → Guarded ℕ
delegation_job info now = do _ ← expire_old now; update_values info now
