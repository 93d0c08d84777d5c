-- ===== src/Standby/Takeover.antt =====
-- panthers-fund/src/agent/backup-coordination.ts: `attemptTakeover`. The delays are left out.
use attested_capital.Base.{
  ℕ, zero, suc, ◌+◌, ◌≤◌, ◌<◌, ◌≡◌, ◌↔◌, ◌⊎◌, inl, inr, ◌==◌, ==→eq, Bool-cases, refl, String,
  Option, none, some, arith,
}

-- What `requestRegistration` makes of the guardian's reply.
pub data Registration : Type 0 where
  registered lost_race : Registration
  failed : Registration

-- What the guardian answers at each attempt: the agent that is active by then, the reply to the
-- registration, and the path of the recovered database.
pub record World : Type 0 where
  pub active_agent : ℕ → Option String
  pub register : ℕ → Registration
  pub recover : ℕ → Option String

pub data TakeoverResult : Type 0 where
  success : String → TakeoverResult
  lost : String → TakeoverResult
  db_not_recovered : TakeoverResult
  out_of_attempts : TakeoverResult

-- MAX_ATTEMPTS
abbrev pub max_attempts : ℕ
max_attempts = 3

abbrev pub recovered : Option String → TakeoverResult
recovered none = db_not_recovered
recovered (some path) = success path

-- One attempt: `again` is what the later ones come to.
abbrev pub decide : Option String → Registration → Option String → TakeoverResult → TakeoverResult
decide (some agent) reply db again = lost agent
decide none registered db again = recovered db
decide none lost_race db again = lost "unknown"
decide none failed db again = again

-- The rounds left, and the number of the attempt.
unfoldable pub attempt : World → ℕ → ℕ → TakeoverResult
attempt w zero n = out_of_attempts
attempt w (suc rounds) n =
    decide (w.active_agent n) (w.register n) (w.recover n) (attempt w rounds (suc n))

unfoldable pub attempt_takeover : World → TakeoverResult
unfolding attempt
attempt_takeover w = attempt w max_attempts 1

-- What each attempt before the n-th showed.
abbrev pub HasFailed : World → ℕ → Type 0
HasFailed w n = (w.active_agent n ≡ none) × (w.register n ≡ failed)

-- The attempt that a takeover needs: nobody is active, the guardian registers this agent, and the
-- database comes; the attempts before it found nobody active and were not registered.
abbrev pub IsTaken : World → ℕ → ℕ → String → Type 0
IsTaken w first n path =
    (w.active_agent n ≡ none)
    × (w.register n ≡ registered)
    × (w.recover n ≡ some path)
    × ((k : ℕ) → first ≤ k → k < n → HasFailed w k)

eq_or_later : (a b : ℕ) → a ≤ b → (a ≡ b) ⊎ (suc a ≤ b)
eq_or_later a b h = elim (Bool-cases (a == b)) [
  | inl is ↦ inl (==→eq a b is)
  | inr not_so ↦ inr (ground arith)
]

abbrev Taken : World → ℕ → ℕ → String → Type 0
Taken w rounds first path = (n : ℕ) × (first ≤ n) × (n < first + rounds) × IsTaken w first n path

Taken-later :
    (w : World) (rounds first : ℕ) (path : String)
    → HasFailed w first
    → Taken w rounds (suc first) path
    → Taken w (suc rounds) first path
Taken-later w rounds first path f (n, le, lt, (a, r, d, before)) = (
  n,
  omega arith,
  omega arith,
  (
    a,
    r,
    d,
    λ k h l. elim (eq_or_later first k h) [
      | inl same ↦ rw (← same) f
      | inr later ↦ before k later l
    ],
  ),
)

attempt-success :
    (w : World) (rounds first : ℕ) (path : String)
    → attempt w rounds first ≡ success path
    → Taken w rounds first path
unfolding attempt
attempt-success w zero first path h = cc
attempt-success w (suc rounds) first path h =
    by_case (w.active_agent first) (w.register first) (w.recover first) refl refl refl h
      (attempt-success w rounds (suc first) path)
  where
    by_case :
        (o : Option String) (r : Registration) (d : Option String)
        → w.active_agent first ≡ o
        → w.register first ≡ r
        → w.recover first ≡ d
        → decide o r d (attempt w rounds (suc first)) ≡ success path
        → (attempt w rounds (suc first) ≡ success path → Taken w rounds (suc first) path)
        → Taken w (suc rounds) first path
    by_case (some agent) r d po pr pd k ih = cc
    by_case none registered none po pr pd k ih = cc
    by_case none registered (some p) po pr pd k ih =
        (first, omega arith, omega arith, (po, pr, cc, λ j h l. absurd (omega arith)))
    by_case none lost_race d po pr pd k ih = cc
    by_case none failed d po pr pd k ih = Taken-later w rounds first path (po, pr) (ih k)

attempt-Taken :
    (w : World) (rounds first : ℕ) (path : String)
    → Taken w rounds first path
    → attempt w rounds first ≡ success path
unfolding attempt
attempt-Taken w zero first path (n, le, lt, t) = absurd (omega arith)
attempt-Taken w (suc rounds) first path (n, le, lt, (a, r, d, before)) =
    elim (eq_or_later first n le) [
      | inl same ↦ rw (same, a, r, d) refl
      | inr later ↦
          let f = before first (omega arith) (omega arith) in
          rw (f.0, f.1)
            (attempt-Taken w rounds (suc first) path
              (n, later, omega arith, (a, r, d, λ k h l. before k (omega arith) l)))
    ]

-- A takeover succeeds exactly where one of the three attempts finds nobody active, is registered
-- and gets the database, and the attempts before it found nobody active and were not registered.
pub attempt_takeover-success :
    (w : World) (path : String)
    → (attempt_takeover w ≡ success path)
      ↔ ((n : ℕ) × (1 ≤ n) × (n < 1 + max_attempts) × IsTaken w 1 n path)
unfolding attempt_takeover
attempt_takeover-success w path =
    (attempt-success w max_attempts 1 path, attempt-Taken w max_attempts 1 path)
