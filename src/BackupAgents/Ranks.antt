-- ===== src/BackupAgents/Ranks.antt =====
-- panthers-fund/src/database/ledger.ts: the position that `registerBackupAgent` returns, and the
-- order of `getBackupAgents`.
use attested_capital.Base.{
  ℕ, suc, str_eq_iff, ◌&&◌, String, Bool, true, false, Bool-cases, inl, inr, some, List, [], ◌∷◌,
  find, filter, length, if◌then◌else◌, All, All-map, ◌≡◌, refl, ap, sym, subst, ◌∙◌, arith,
}
use attested_capital.BackupAgents.{
  BackupAgent, has_id, is_ahead, position, upsert, register_backup_agent, insert_agent,
  get_backup_agents,
}

-- The place of a key in a list, from 1 on.
abbrev pub rank : String → List BackupAgent → ℕ
rank id [] = 0
rank id (a ∷ rest) = if has_id id a then 1 else suc (rank id rest)

abbrev pub Distinct : List BackupAgent → Type 0
Distinct [] = Unit
Distinct (a ∷ rest) = All (λ b. has_id a.id b ≡ false) rest × Distinct rest

abbrev Ordered : List BackupAgent → Type 0
Ordered [] = Unit
Ordered (a ∷ rest) = All (λ b. is_ahead a b ≡ true) rest × Ordered rest

-- No other agent has both the streak and the time of registration of this one.
abbrev pub IsUntied : BackupAgent → BackupAgent → Type 0
IsUntied agent a = has_id agent.id a ≡ false → (is_ahead a agent && is_ahead agent a) ≡ false

is_ahead_trans :
    (a b c : BackupAgent) → is_ahead a b ≡ true → is_ahead b c ≡ true → is_ahead a c ≡ true
is_ahead_trans a b c h k = ground arith

is_ahead_total : (a b : BackupAgent) → is_ahead a b ≡ false → is_ahead b a ≡ true
is_ahead_total a b h = ground arith

module _ (P : BackupAgent → Type 0) where
  All-insert :
      (a : BackupAgent) (rows : List BackupAgent) → P a → All P rows → All P (insert_agent a rows)
  unfolding insert_agent
  All-insert a [] pa h = (pa, tt)
  All-insert a (b ∷ rows) pa h = elim (Bool-cases (is_ahead a b)) [
    | inl is ↦ rw is (pa, h)
    | inr not_so ↦ rw not_so (h.0, All-insert a rows pa h.1)
  ]

  All-sort : (rows : List BackupAgent) → All P rows → All P (get_backup_agents rows)
  unfolding get_backup_agents
  All-sort [] h = tt
  All-sort (a ∷ rows) h = All-insert a (get_backup_agents rows) h.0 (All-sort rows h.1)

  All-found :
      (id : String) (rows : List BackupAgent) (a : BackupAgent)
      → find (has_id id) rows ≡ some a
      → All P rows
      → P a
  All-found id [] a found h = cc
  All-found id (b ∷ rows) a found h = elim (Bool-cases (has_id id b)) [
    | inl is ↦ let same : b ≡ a = ground arith in subst P same h.0
    | inr not_so ↦ All-found id rows a (ground arith) h.1
  ]

insert-Ordered :
    (a : BackupAgent) (rows : List BackupAgent) → Ordered rows → Ordered (insert_agent a rows)
unfolding insert_agent
insert-Ordered a [] o = (tt, tt)
insert-Ordered a (b ∷ rows) o = elim (Bool-cases (is_ahead a b)) [
  | inl is ↦ rw is ((is, All-map _ _ (λ c k. is_ahead_trans a b c is k) rows o.0), o)
  | inr not_so ↦
      rw not_so (All-insert _ a rows (is_ahead_total a b not_so) o.0, insert-Ordered a rows o.1)
]

sort-Ordered : (rows : List BackupAgent) → Ordered (get_backup_agents rows)
unfolding get_backup_agents
sort-Ordered [] = tt
sort-Ordered (a ∷ rows) = insert-Ordered a (get_backup_agents rows) (sort-Ordered rows)

insert-Distinct :
    (a : BackupAgent) (rows : List BackupAgent)
    → All (λ b. has_id a.id b ≡ false) rows
    → Distinct rows
    → Distinct (insert_agent a rows)
unfolding insert_agent
insert-Distinct a [] new d = (tt, tt)
insert-Distinct a (b ∷ rows) new d = elim (Bool-cases (is_ahead a b)) [
  | inl is ↦ rw is (new, d)
  | inr not_so ↦ rw not_so (
    All-insert _ a rows (ground (arith, str_eq_iff a.id b.id, str_eq_iff b.id a.id)) d.0,
    insert-Distinct a rows new.1 d.1,
  )
]

sort-Distinct : (rows : List BackupAgent) → Distinct rows → Distinct (get_backup_agents rows)
unfolding get_backup_agents
sort-Distinct [] d = tt
sort-Distinct (a ∷ rows) d =
    insert-Distinct a (get_backup_agents rows) (All-sort _ rows d.0) (sort-Distinct rows d.1)

find-insert :
    (id : String) (a : BackupAgent) (rows : List BackupAgent)
    → All (λ b. has_id a.id b ≡ false) rows
    → find (has_id id) (insert_agent a rows) ≡ find (has_id id) (a ∷ rows)
unfolding insert_agent
find-insert id a [] new = refl
find-insert id a (b ∷ rows) new = ground (
  arith,
  str_eq_iff a.id id,
  str_eq_iff b.id id,
  str_eq_iff b.id a.id,
  find-insert id a rows new.1,
)

find-sort :
    (id : String) (rows : List BackupAgent)
    → Distinct rows
    → find (has_id id) (get_backup_agents rows) ≡ find (has_id id) rows
unfolding get_backup_agents
find-sort id [] d = refl
find-sort id (a ∷ rows) d =
    find-insert id a (get_backup_agents rows) (All-sort _ rows d.0)
    ∙ ground (arith, find-sort id rows d.1)

module _ (p : BackupAgent → Bool) where
  length-filter-insert :
      (a : BackupAgent) (rows : List BackupAgent)
      → length (filter p (insert_agent a rows)) ≡ length (filter p (a ∷ rows))
  unfolding insert_agent
  length-filter-insert a [] = refl
  length-filter-insert a (b ∷ rows) = ground (arith, length-filter-insert a rows)

  length-filter-sort :
      (rows : List BackupAgent)
      → length (filter p (get_backup_agents rows)) ≡ length (filter p rows)
  unfolding get_backup_agents
  length-filter-sort [] = refl
  length-filter-sort (a ∷ rows) =
      length-filter-insert a (get_backup_agents rows) ∙ ground (arith, length-filter-sort rows)

  filter-nothing :
      (rows : List BackupAgent) → All (λ a. p a ≡ false) rows → length (filter p rows) ≡ 0
  filter-nothing [] h = refl
  filter-nothing (a ∷ rows) h = rw h.0 (filter-nothing rows h.1)

module _ (agent : BackupAgent) where
  behind :
      (rows : List BackupAgent)
      → All (λ b. is_ahead agent b ≡ true) rows
      → All (λ b. has_id agent.id b ≡ false) rows
      → All (IsUntied agent) rows
      → All (λ b. is_ahead b agent ≡ false) rows
  behind [] o d u = tt
  behind (b ∷ rows) o d u = (one (u.0 d.0) o.0, behind rows o.1 d.1 u.1)
    where
      one :
          (is_ahead b agent && is_ahead agent b) ≡ false
          → is_ahead agent b ≡ true
          → is_ahead b agent ≡ false
      one untied k = ground arith

  rank-Ordered :
      (rows : List BackupAgent)
      → Ordered rows
      → Distinct rows
      → All (IsUntied agent) rows
      → find (has_id agent.id) rows ≡ some agent
      → rank agent.id rows ≡ length (filter (λ a. is_ahead a agent) rows)
  rank-Ordered [] o d u found = cc
  rank-Ordered (a ∷ rows) o d u found = elim (Bool-cases (has_id agent.id a)) [
    | inl is ↦
        let same : a ≡ agent = ground arith in
        let self : is_ahead a agent ≡ true = rw same (ground arith) in
        let none_ahead =
          behind rows (subst (λ x. All (λ b. is_ahead x b ≡ true) rows) same o.0)
            (subst (λ x. All (λ b. has_id x.id b ≡ false) rows) same d.0) u.1 in
        let rest = filter-nothing (λ b. is_ahead b agent) rows none_ahead in
        rw (is, self) (omega (arith, rest))
    | inr other ↦
        let ahead = All-found _ agent.id rows agent (ground arith) o.0 in
        rw (other, ahead) (ap suc (rank-Ordered rows o.1 d.1 u.1 (ground arith)))
  ]

  position-rank :
      (written : List BackupAgent)
      → find (has_id agent.id) written ≡ some agent
      → Distinct written
      → All (IsUntied agent) written
      → position agent.id written ≡ rank agent.id (get_backup_agents written)
  unfolding position
  position-rank written found d u =
      rw (found, position)
        (sym (
          rank-Ordered (get_backup_agents written) (sort-Ordered written) (sort-Distinct written d)
            (All-sort (IsUntied agent) written u) (find-sort agent.id written d ∙ found)
          ∙ length-filter-sort (λ a. is_ahead a agent) written))

  -- The position that a registration returns is the place of the agent in the list of backups by
  -- priority, where the keys are keys and no other backup has both its streak and its time of
  -- registration.
  pub register_backup_agent-rank :
      (now : ℕ) (endpoint : String) (rows : List BackupAgent)
      → (let (place, written) = register_backup_agent now agent.id endpoint rows in
          find (has_id agent.id) written ≡ some agent
          → Distinct written
          → All (IsUntied agent) written
          → place ≡ rank agent.id (get_backup_agents written))
  unfolding register_backup_agent
  register_backup_agent-rank now endpoint rows found d u =
      position-rank (upsert now agent.id endpoint rows) found d u
