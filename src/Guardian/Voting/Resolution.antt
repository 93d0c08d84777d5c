-- ===== src/Guardian/Voting/Resolution.antt =====
-- guardian-network/src/sentry/voting.ts: what resolving a vote writes.
use attested_capital.Base.{
  ℕ, ◌≡◌, inl, inr, refl, leb, str_eq, str_eq_iff, String, false, Bool-cases, some, List, [], ◌∷◌,
  All, find, update, arith,
}
use attested_capital.Action.{ok, gets, pure, ◌>>=◌}
use attested_capital.Action.Runs.{run_bind}
use attested_capital.Guardian.{Proposal, ProposalStatus, Store}
use attested_capital.Guardian.Clock.{millis}
use attested_capital.Guardian.Proposals.{get_by_id, list_by_status, list_active, set_status}
use attested_capital.Guardian.Voting.{
  TallyResult, get_votes, tally_of, tally, resolve, resolve_each, resolve_expired,
}
use attested_capital.Guardian.Voting.Due.{
  verdict, is_due, Covered, Present, cover_step, cover_skip, Present-step, Present-find, none_due,
  Covered-by_active, Present-filter,
}

-- The store in which a proposal has a status.
abbrev pub marked : String → ProposalStatus → Store → Store
marked id status store = record store {
  proposals = update (λ p. str_eq p.id id) (λ p. record p { status = status }) store.proposals;
}

module _ (id : String) (pool : ℕ) (store : Store) (p : Proposal) where
  resolve-eq :
      get_by_id id store ≡ some p
      → (let r = tally_of p (get_votes id store) pool in
          resolve id pool store ≡ (ok r, marked id (verdict r) store))
  unfolding resolve tally set_status ◌>>=◌
  resolve-eq found = rw found refl

find-marked :
    (id : String) (status : ProposalStatus) (rows : List Proposal) (p : Proposal)
    → find (λ q. str_eq q.id id) rows ≡ some p
    → find
        (λ q. str_eq q.id id)
        (update (λ q. str_eq q.id id) (λ q. record q { status = status }) rows)
      ≡ some (record p { status = status })
find-marked id status [] p h = cc
find-marked id status (q ∷ rows) p h = ground (arith, find-marked id status rows p)

find-unmarked :
    (id other : String) (status : ProposalStatus) (rows : List Proposal)
    → str_eq id other ≡ false
    → find
        (λ q. str_eq q.id other)
        (update (λ q. str_eq q.id id) (λ q. record q { status = status }) rows)
      ≡ find (λ q. str_eq q.id other) rows
find-unmarked id other status [] h = refl
find-unmarked id other status (q ∷ rows) h = elim (Bool-cases (str_eq q.id id)) [
  | inr elsewhere ↦ rw elsewhere (ground (arith, find-unmarked id other status rows h))
  | inl same ↦
      let moved : str_eq q.id other ≡ false = rw ((str_eq_iff q.id id).0 same) h in
      rw (same, moved) (find-unmarked id other status rows h)
]

-- To resolve a proposal is to tally its votes and write the verdict over its status, whatever that
-- was, also where the proposal is decided or expired already. No other proposal changes.
pub resolve-decides :
    (id : String) (pool : ℕ) (store : Store) (p : Proposal)
    → get_by_id id store ≡ some p
    → (r : TallyResult) × (t : Store) × (resolve id pool store ≡ (ok r, t))
      × (tally id pool store ≡ (ok r, store))
      × (get_by_id id t ≡ some (record p { status = verdict r }))
      × ((other : String) → str_eq id other ≡ false → get_by_id other t ≡ get_by_id other store)
unfolding get_by_id tally ◌>>=◌
resolve-decides id pool store p found =
    let r = tally_of p (get_votes id store) pool in
    (
      r,
      marked id (verdict r) store,
      resolve-eq id pool store p found,
      rw found refl,
      find-marked id (verdict r) store.proposals p found,
      λ other h. find-unmarked id other (verdict r) store.proposals h,
    )

resolve_each-settles :
    (now pool : ℕ) (ps : List Proposal) (store : Store)
    → All (Covered now ps) store.proposals
    → All (Present store.proposals) ps
    → (rs : List TallyResult) × (t : Store) × (resolve_each now pool ps store ≡ (ok rs, t))
      × All (λ q. is_due now q ≡ false) t.proposals
unfolding resolve_each get_by_id pure
resolve_each-settles now pool [] store covered present =
    ([], store, refl, none_due now store.proposals covered)
resolve_each-settles now pool (p ∷ rest) store covered present =
    elim (Bool-cases (leb (millis p.deadline) now)) [
      | inr early ↦ rw early (
          resolve_each-settles now pool rest store (cover_skip now p rest _ early covered)
            present.1)
      | inl late ↦
          let row = Present-find p.id store.proposals present.0 in
          let r = tally_of row.0 (get_votes p.id store) pool in
          let t = marked p.id (verdict r) store in
          let more =
            resolve_each-settles now pool rest t (cover_step now p rest r store.proposals covered)
              (Present-step p.id _ store.proposals rest (λ q. refl) present.1) in
          (
            r ∷ more.0,
            more.1,
            rw late
                (run_bind _ _ (resolve-eq p.id pool store row.0 row.1) (run_bind _ _ more.2 refl)),
            more.3,
          )
    ]

-- `resolve_expired` always returns, and then no proposal is active whose deadline has come.
pub resolve_expired-settles :
    (now pool : ℕ) (store : Store)
    → (rs : List TallyResult) × (t : Store) × (resolve_expired now pool store ≡ (ok rs, t))
      × All (λ q. is_due now q ≡ false) t.proposals
unfolding resolve_expired list_active list_by_status gets
resolve_expired-settles now pool store =
    let settled =
      resolve_each-settles now pool (list_active store) store
        (Covered-by_active now store.proposals) (Present-filter _ store.proposals) in
    (settled.0, settled.1, run_bind _ _ refl settled.2, settled.3)
