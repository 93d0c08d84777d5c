-- ===== src/Guardian/Voting/Due.antt =====
-- guardian-network/src/sentry/voting.ts: the proposals that `resolveExpired` has to visit.
use attested_capital.Base.{
  All-map, ℕ, ◌≡◌, ◌⊎◌, inl, inr, refl, leb, str_eq, str_eq_iff, ◌&&◌, String, Bool, true, false,
  Bool-cases, some, List, [], ◌∷◌, All, any, find, filter, update, if◌then◌else◌, arith,
}
use attested_capital.Guardian.{Proposal, ProposalStatus}
use attested_capital.Guardian.Clock.{millis}
use attested_capital.Guardian.Proposals.{has_status}
use attested_capital.Guardian.Voting.{TallyResult}

abbrev pub verdict : TallyResult → ProposalStatus
verdict r = if r.passed then ProposalStatus.passed else ProposalStatus.failed

-- An active proposal whose deadline has come.
abbrev pub is_due : ℕ → Proposal → Bool
is_due now p = has_status ProposalStatus.active p && leb (millis p.deadline) now

-- A row that is due has its key among the proposals to visit.
abbrev pub Covered : ℕ → List Proposal → Proposal → Type 0
Covered now ps q =
    is_due now q ≡ true → any (λ p. str_eq q.id p.id && leb (millis p.deadline) now) ps ≡ true

abbrev pub Present : List Proposal → Proposal → Type 0
Present rows p = any (λ q. str_eq q.id p.id) rows ≡ true

decided :
    (r : TallyResult) (q : Proposal)
    → has_status ProposalStatus.active (record q { status = verdict r }) ≡ false
unfolding has_status
decided r q = ground arith

pub cover_step :
    (now : ℕ) (p : Proposal) (rest : List Proposal) (r : TallyResult) (rows : List Proposal)
    → All (Covered now (p ∷ rest)) rows
    → All
        (Covered now rest)
        (update (λ q. str_eq q.id p.id) (λ q. record q { status = verdict r }) rows)
cover_step now p rest r [] h = tt
cover_step now p rest r (q ∷ rows) h =
    (first (Bool-cases (str_eq q.id p.id)), cover_step now p rest r rows h.1)
  where
    first :
        (str_eq q.id p.id ≡ true) ⊎ (str_eq q.id p.id ≡ false)
        → Covered now rest (if str_eq q.id p.id then record q { status = verdict r } else q)
    first (inl same) = rw same (λ due. ground (arith, decided r q))
    first (inr other) = rw other (λ due. ground (arith, h.0 due))

pub cover_skip :
    (now : ℕ) (p : Proposal) (rest : List Proposal) (rows : List Proposal)
    → leb (millis p.deadline) now ≡ false
    → All (Covered now (p ∷ rest)) rows
    → All (Covered now rest) rows
cover_skip now p rest [] early h = tt
cover_skip now p rest (q ∷ rows) early h =
    (λ due. ground (arith, h.0 due), cover_skip now p rest rows early h.1)

any-update :
    (k id : String) (f : Proposal → Proposal) (rows : List Proposal)
    → ((q : Proposal) → (f q).id ≡ q.id)
    → any (λ q. str_eq q.id k) (update (λ q. str_eq q.id id) f rows) ≡ any (λ q. str_eq q.id k) rows
any-update k id f [] same = refl
any-update k id f (q ∷ rows) same = elim (Bool-cases (str_eq q.id id)) [
  | inl own ↦ rw (own, same q, any-update k id f rows same) refl
  | inr other ↦ rw (other, any-update k id f rows same) refl
]

pub Present-step :
    (id : String) (f : Proposal → Proposal) (rows ps : List Proposal)
    → ((q : Proposal) → (f q).id ≡ q.id)
    → All (Present rows) ps
    → All (Present (update (λ q. str_eq q.id id) f rows)) ps
Present-step id f rows [] same h = tt
Present-step id f rows (p ∷ ps) same h =
    (rw (any-update p.id id f rows same) h.0, Present-step id f rows ps same h.1)

pub Present-find :
    (id : String) (rows : List Proposal)
    → any (λ q. str_eq q.id id) rows ≡ true
    → (p : Proposal) × (find (λ q. str_eq q.id id) rows ≡ some p)
Present-find id [] h = cc
Present-find id (q ∷ rows) h = elim (Bool-cases (str_eq q.id id)) [
  | inl own ↦ (q, rw own)
  | inr other ↦ rw other (Present-find id rows (ground (arith, h)))
]

pub none_due :
    (now : ℕ) (rows : List Proposal)
    → All (Covered now []) rows
    → All (λ q. is_due now q ≡ false) rows
none_due now [] h = tt
none_due now (q ∷ rows) h = (
  elim (Bool-cases (is_due now q)) [ inl due ↦ absurd (cc (h.0 due)) | inr calm ↦ calm ],
  none_due now rows h.1,
)

cover_more :
    (now : ℕ) (p : Proposal) (ps : List Proposal) (q : Proposal)
    → Covered now ps q
    → Covered now (p ∷ ps) q
cover_more now p ps q h due = ground (arith, h due)

-- The active proposals cover every row that is due, and all of them are rows.
pub Covered-by_active :
    (now : ℕ) (rows : List Proposal)
    → All (Covered now (filter (has_status ProposalStatus.active) rows)) rows
Covered-by_active now [] = tt
Covered-by_active now (q ∷ rows) = with_first _ refl (Covered-by_active now rows)
  where
    rest : List Proposal
    rest = filter (has_status ProposalStatus.active) rows

    with_first :
        (b : Bool)
        → has_status ProposalStatus.active q ≡ b
        → All (Covered now rest) rows
        → All (Covered now (if b then q ∷ rest else rest)) (q ∷ rows)
    with_first false other h = ((λ due. ground arith), h)
    with_first true active h = (
      (λ due. rw ((str_eq_iff q.id q.id).1 refl) (ground arith)),
      All-map _ _ (cover_more now q rest) rows h,
    )

Present-more :
    (q : Proposal) (rows : List Proposal) (p : Proposal) → Present rows p → Present (q ∷ rows) p
Present-more q rows p h = ground (arith, h)

pub Present-filter :
    (test : Proposal → Bool) (rows : List Proposal) → All (Present rows) (filter test rows)
Present-filter test [] = tt
Present-filter test (q ∷ rows) =
    let rest = All-map _ _ (Present-more q rows) (filter test rows) (Present-filter test rows) in
    elim (Bool-cases (test q)) [
      | inr out ↦ rw out rest
      | inl kept ↦ rw kept (rw ((str_eq_iff q.id q.id).1 refl), rest)
    ]
