-- ===== src/RpcRegistry/Screening.antt =====
-- guardian-network/src/guardian/rpc-tester.ts: no endpoint stays in use with a low reputation.
use attested_capital.Base.{
  ℕ, ◌==◌, ==→eq, not, Bool, true, false, Option, none, some, List, [], ◌∷◌, ◌&&◌, find, update,
  if◌then◌else◌, All, All-map, All-update, Bool-cases, Option-cases, ◌≡◌, refl, inl, inr, arith,
}
use attested_capital.Base.Int.{ℤ, pos, negsuc}
use attested_capital.RpcRegistry.{
  RpcStatus, RpcEntry, Outcome, Registry, is_deprecated, is_trial, has_rpc_key, get_by_id,
  with_status, set_status, with_delta, adjust_reputation, with_latency, delta_of,
  record_test_result, is_low, is_high, settle_status, test_one,
}

-- No key twice.
abbrev pub Distinct : List RpcEntry → Type 0
Distinct [] = Unit
Distinct (e ∷ es) = All (λ d. (d.id == e.id) ≡ false) es × Distinct es

-- An endpoint in use has a reputation above -20.
abbrev pub IsScreened : RpcEntry → Type 0
IsScreened e = is_deprecated e.status ≡ false → is_low e.reputation ≡ false

-- An update that keeps the keys.
module _ (key : ℕ) (f : RpcEntry → RpcEntry) (keeps : (e : RpcEntry) → (f e).id ≡ e.id) where
  update-others :
      (P : RpcEntry → Type 0) (es : List RpcEntry)
      → All (λ e. has_rpc_key key e ≡ false → P e) es
      → All (λ e. has_rpc_key key e ≡ false → P e) (update (has_rpc_key key) f es)
  update-others P [] h = tt
  update-others P (e ∷ es) h = (at_head (has_rpc_key key e) refl, update-others P es h.1)
    where
      at_head :
          (b : Bool)
          → has_rpc_key key e ≡ b
          → has_rpc_key key (if b then f e else e) ≡ false
          → P (if b then f e else e)
      at_head true same k = absurd (let q = keeps e in cc (same, k, q))
      at_head false other k = h.0 k

  update-Distinct : (es : List RpcEntry) → Distinct es → Distinct (update (has_rpc_key key) f es)
  update-Distinct [] d = tt
  update-Distinct (e ∷ es) d = (same_id (has_rpc_key key e), update-Distinct es d.1)
    where
      later : All (λ c. (c.id == e.id) ≡ false) (update (has_rpc_key key) f es)
      later = All-update _ (has_rpc_key key) f (λ c new. rw (keeps c) new) es d.0

      same_id :
          (b : Bool)
          → All (λ c. (c.id == (if b then f e else e).id) ≡ false) (update (has_rpc_key key) f es)
      same_id true = rw (keeps e) later
      same_id false = later

find_unique :
    (key : ℕ) (es : List RpcEntry) (u : RpcEntry)
    → Distinct es
    → find (has_rpc_key key) es ≡ some u
    → All (λ e. has_rpc_key key e ≡ true → e ≡ u) es
find_unique key [] u d found = tt
find_unique key (e ∷ es) u d found = elim (Bool-cases (has_rpc_key key e)) [
  | inl is ↦
      ((λ k. ground arith), All-map _ _ (λ c new k. absurd (cc (==→eq _ _ is, new, k))) es d.0)
  | inr other ↦ ((λ k. absurd (cc (other, k))), find_unique key es u d.1 (ground arith))
]

find-none :
    (key : ℕ) (es : List RpcEntry)
    → find (has_rpc_key key) es ≡ none
    → All (λ e. has_rpc_key key e ≡ false) es
find-none key [] missing = tt
find-none key (e ∷ es) missing = (ground arith, find-none key es (ground arith))

module _ (P : RpcEntry → Type 0) (key : ℕ) (u : RpcEntry) where
  unchanged-screened :
      (es : List RpcEntry)
      → P u
      → All (λ e. has_rpc_key key e ≡ true → e ≡ u) es
      → All (λ e. has_rpc_key key e ≡ false → P e) es
      → All P es
  unchanged-screened [] su same h = tt
  unchanged-screened (e ∷ es) su same h = (
    elim (Bool-cases (has_rpc_key key e)) [ inl is ↦ rw (same.0 is) su | inr other ↦ h.0 other ],
    unchanged-screened es su same.1 h.1,
  )

  set-screened :
      (status : RpcStatus) (es : List RpcEntry)
      → P (with_status status u)
      → All (λ e. has_rpc_key key e ≡ true → e ≡ u) es
      → All (λ e. has_rpc_key key e ≡ false → P e) es
      → All P (update (has_rpc_key key) (with_status status) es)
  set-screened status [] su same h = tt
  set-screened status (e ∷ es) su same h = (
    elim (Bool-cases (has_rpc_key key e)) [
      | inl is ↦ rw (is, same.0 is) su
      | inr other ↦ rw other (h.0 other)
    ],
    set-screened status es su same.1 h.1,
  )

&&-false : (b : Bool) → (b && false) ≡ false
&&-false true = refl
&&-false false = refl

All-both :
    (Q P : RpcEntry → Type 0) (es : List RpcEntry) → All Q es → All (λ e. Q e → P e) es → All P es
All-both Q P [] q h = tt
All-both Q P (e ∷ es) q h = (h.0 q.0, All-both Q P es q.1 h.1)

low-not_high : (x : ℤ) → is_low x ≡ true → is_high x ≡ false
low-not_high (pos n) h = absurd (cc h)
low-not_high (negsuc n) h = refl

-- What a test leaves of the tested entry is screened.
module _ (P : RpcEntry → Type 0) (screened : (e : RpcEntry) → IsScreened e → P e) where
  found-screened :
      (key : ℕ) (r : Registry) (u : RpcEntry)
      → All (λ e. has_rpc_key key e ≡ true → e ≡ u) r.entries
      → All (λ e. has_rpc_key key e ≡ false → P e) r.entries
      → All P (settle_status key (some u) r).entries
  unfolding settle_status set_status
  found-screened key r u same h = elim (Bool-cases (is_low u.reputation)) [
    | inl low ↦
        let not_high = low-not_high u.reputation low in
        elim (Bool-cases (is_deprecated u.status)) [
          | inl gone ↦
              rw (low, gone, not_high, &&-false (is_trial u.status))
                (unchanged-screened P key u r.entries (screened u (λ k. absurd (cc (gone, k)))) same
                  h)
          | inr used ↦
              rw (low, used, not_high, &&-false (is_trial u.status))
                (set-screened P key u RpcStatus.deprecated r.entries
                  (screened _ (λ k. absurd (cc k))) same h)
        ]
    | inr fine ↦ elim (Bool-cases (is_trial u.status && is_high u.reputation)) [
      | inl promoted ↦
          rw (fine, promoted)
            (set-screened P key u RpcStatus.active r.entries (screened _ (λ k. fine)) same h)
      | inr stays ↦
          rw (fine, stays) (unchanged-screened P key u r.entries (screened u (λ k. fine)) same h)
    ]
  ]

  settle_status-screened :
      (key : ℕ) (r : Registry)
      → Distinct r.entries
      → All (λ e. has_rpc_key key e ≡ false → P e) r.entries
      → All P (settle_status key (get_by_id key r) r).entries
  unfolding get_by_id settle_status
  settle_status-screened key r d h = elim (Option-cases (find (has_rpc_key key) r.entries)) [
    | inl missing ↦ rw missing (All-both _ P r.entries (find-none key r.entries missing) h)
    | inr (u, found) ↦ rw found (found-screened key r u (find_unique key r.entries u d found) h)
  ]

settle_status-Distinct :
    (key : ℕ) (o : Option RpcEntry) (r : Registry)
    → Distinct r.entries
    → Distinct (settle_status key o r).entries
unfolding settle_status set_status
settle_status-Distinct key none r d = d
settle_status-Distinct key (some u) r d =
    promote _ (is_trial u.status && is_high u.reputation)
      (lower (is_low u.reputation && not (is_deprecated u.status)))
  where
    set :
        (status : RpcStatus) (s : Registry)
        → Distinct s.entries
        → Distinct (set_status key status s).entries
    set status s = update-Distinct key (with_status status) (λ e. refl) s.entries

    lower : (b : Bool) → Distinct (if b then set_status key RpcStatus.deprecated r else r).entries
    lower true = set RpcStatus.deprecated r d
    lower false = d

    promote :
        (s : Registry) (b : Bool)
        → Distinct s.entries
        → Distinct (if b then set_status key RpcStatus.active s else s).entries
    promote s true k = set RpcStatus.active s k
    promote s false k = k

module _ (key : ℕ) (outcome : Outcome) (r : Registry) (d : Distinct r.entries) where
  recorded-Distinct : Distinct (record_test_result key outcome r).entries
  unfolding record_test_result adjust_reputation
  recorded-Distinct =
      update-Distinct key (with_delta (delta_of outcome.success)) (λ e. refl) _
        (update-Distinct key (with_latency outcome.latency_ms) (λ e. refl) r.entries d)

  pub test_one-Distinct : Distinct (test_one key outcome r).entries
  unfolding test_one
  test_one-Distinct =
      settle_status-Distinct key (get_by_id key (record_test_result key outcome r))
        (record_test_result key outcome r) recorded-Distinct

  pub test_one-All :
      (P : RpcEntry → Type 0)
      → ((e : RpcEntry) → IsScreened e → P e)
      → All (λ e. has_rpc_key key e ≡ false → P e) r.entries
      → All P (test_one key outcome r).entries
  unfolding test_one record_test_result adjust_reputation
  test_one-All P screened h = settle_status-screened P screened key _ recorded-Distinct (
      update-others key (with_delta (delta_of outcome.success)) (λ e. refl) P _
        (update-others key (with_latency outcome.latency_ms) (λ e. refl) P r.entries h))
