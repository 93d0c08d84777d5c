-- ===== src/Trading/Orderly.antt =====
-- panthers-fund/src/agent/trading-engine.ts: the desk in order, and what closing a position leaves.
use attested_capital.Base.{
  ℕ, ◌+◌, ◌≤◌, ◌==◌, str_eq, ==→eq, ◌≡◌, refl, ap, sym, ◌∙◌, Bool, true, false, not, ◌&&◌, none,
  some, List, [], ◌∷◌, All, All-map, subst, any, find, filter, total, if◌then◌else◌, Bool-cases,
  inl, inr, if_true, if_false, arith,
}
use attested_capital.Ledger.Trades.Sound.{IsSound}
use attested_capital.Trading.Desk.{OpenPosition, Desk, is_position, without, sol_usdc}

abbrev pub open_total : List OpenPosition → ℕ
open_total = total (λ p. p.amount_cents)

-- The primary key of the positions.
abbrev pub Keyed : List OpenPosition → Type 0
Keyed [] = Unit
Keyed (p ∷ rest) = (any (is_position p.id) rest ≡ false) × Keyed rest

abbrev pub IsRow : List OpenPosition → OpenPosition → Type 0
IsRow rows p = find (is_position p.id) rows ≡ some p

-- The ledger is in order, the positions have keys of their own and amounts, and the pool is at
-- least what is invested.
pub record IsOrderly (desk : Desk) : Type 0 where
  pub sound : IsSound desk.ledger
  pub keyed : Keyed desk.positions
  pub numbered : All (λ p. p.id ≤ desk.last_id) desk.positions
  pub amounts : All (λ p. 1 ≤ p.amount_cents) desk.positions
  pub pairs : All (λ p. str_eq p.pair sol_usdc ≡ true) desk.positions
  pub covered : open_total desk.positions ≤ desk.ledger.total_pool_balance

module _ (f : OpenPosition → Bool) where
  any-filter :
      (j : ℕ) (rows : List OpenPosition)
      → any (is_position j) rows ≡ false
      → any (is_position j) (filter f rows) ≡ false
  any-filter j [] h = refl
  any-filter j (p ∷ rows) h = ground (arith, any-filter j rows)

  pub Keyed-filter : (rows : List OpenPosition) → Keyed rows → Keyed (filter f rows)
  Keyed-filter [] d = tt
  Keyed-filter (p ∷ rows) d = by_test (f p) (any-filter p.id rows d.0) (Keyed-filter rows d.1)
    where
      by_test :
          (b : Bool)
          → any (is_position p.id) (filter f rows) ≡ false
          → Keyed (filter f rows)
          → Keyed (if b then p ∷ filter f rows else filter f rows)
      by_test true a r = (a, r)
      by_test false a r = r

find-any :
    (k : ℕ) (q : OpenPosition) (rows : List OpenPosition)
    → find (is_position k) rows ≡ some q
    → any (is_position k) rows ≡ true
find-any k q [] f = cc
find-any k q (p ∷ rows) f = ground (arith, find-any k q rows)

IsRow-later :
    (p q : OpenPosition) (rows : List OpenPosition)
    → any (is_position p.id) rows ≡ false
    → IsRow rows q
    → IsRow (p ∷ rows) q
IsRow-later p q rows h f = elim (Bool-cases (p.id == q.id)) [
  | inl same ↦ cc (h, ap (λ k. any (is_position k) rows) (==→eq _ _ same), find-any q.id q rows f)
  | inr other ↦ if_false (some p) (find (is_position q.id) rows) _ other ∙ f
]

-- A row is found under its key, and what holds of all rows holds of it.
pub rows-IsRow : (rows : List OpenPosition) → Keyed rows → All (IsRow rows) rows
rows-IsRow [] d = tt
rows-IsRow (p ∷ rows) d =
    let self : (p.id == p.id) ≡ true = ground arith in
    (
      if_true (some p) (find (is_position p.id) rows) _ self,
      All-map _ _ (λ q. IsRow-later p q rows d.0) rows (rows-IsRow rows d.1),
    )

pub find-All {ℓ} :
    (P : OpenPosition → Type ℓ) (k : ℕ) (p : OpenPosition) (rows : List OpenPosition)
    → find (is_position k) rows ≡ some p
    → All P rows
    → P p
find-All P k p [] f h = cc
find-All P k p (q ∷ rows) f h = elim (Bool-cases (is_position k q)) [
  | inl here ↦
      subst (λ o. elim o [ none ↦ P p | some x ↦ P x ])
        (sym (if_true (some q) (find (is_position k) rows) _ here) ∙ f) h.0
  | inr later ↦
      find-All P k p rows (sym (if_false (some q) (find (is_position k) rows) _ later) ∙ f) h.1
]

module _ (k : ℕ) where
  without-none :
      (rows : List OpenPosition) → any (is_position k) rows ≡ false → without k rows ≡ rows
  without-none [] h = refl
  without-none (p ∷ rows) h = ground (arith, without-none rows)

  -- Closing a position frees what is invested in it.
  pub open_total-without :
      (p : OpenPosition) (rows : List OpenPosition)
      → Keyed rows
      → find (is_position k) rows ≡ some p
      → open_total (without k rows) + p.amount_cents ≡ open_total rows
  open_total-without p [] d f = cc
  open_total-without p (q ∷ rows) d f = elim (Bool-cases (is_position k q)) [
    | inl here ↦
        let gone =
          without-none rows (ap (λ j. any (is_position j) rows) (sym (==→eq _ _ here)) ∙ d.0) in
        let mine : q.amount_cents ≡ p.amount_cents =
          ap (λ o. elim o [ none ↦ 0 | some x ↦ x.amount_cents ])
            (sym (if_true (some q) (find (is_position k) rows) _ here) ∙ f) in
        rw (here, gone) (omega (arith, mine))
    | inr later ↦ rw later (
        omega (
          arith,
          open_total-without p rows d.1
              (sym (if_false (some q) (find (is_position k) rows) _ later) ∙ f),
        ))
  ]

  pub find-without :
      (q : OpenPosition) (rows : List OpenPosition)
      → (q.id == k) ≡ false
      → IsRow rows q
      → IsRow (without k rows) q
  find-without q [] other f = f
  find-without q (p ∷ rows) other f = ground (arith, find-without q rows)

  pub filter-without :
      (f : OpenPosition → Bool) (rows : List OpenPosition)
      → filter f (without k rows) ≡ filter (λ q. not (is_position k q) && f q) rows
  filter-without f [] = refl
  filter-without f (p ∷ rows) = ground (arith, filter-without f rows)
