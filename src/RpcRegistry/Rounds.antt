-- ===== src/RpcRegistry/Rounds.antt =====
-- guardian-network/src/guardian/rpc-tester.ts: a round of tests, `testAll`.
use attested_capital.Base.{
  ◌==◌, not, Bool, true, false, List, [], ◌∷◌, any, filter, All, All-map, ◌≡◌, refl, ap, ◌∙◌, arith,
}
use attested_capital.RpcRegistry.{
  RpcEntry, Outcome, Registry, has_rpc_key, test_one, insert_entry, by_reputation, list_all, in_use,
  test_each, test_all,
}
use attested_capital.RpcRegistry.Screening.{Distinct, IsScreened, test_one-Distinct, test_one-All}

abbrev pub is_probed : RpcEntry → List RpcEntry → Bool
is_probed e = any (λ l. e.id == l.id)

not_first :
    (l : RpcEntry) (listed : List RpcEntry) (e : RpcEntry)
    → (is_probed e (l ∷ listed) ≡ false → IsScreened e)
    → has_rpc_key l.id e ≡ false
    → is_probed e listed ≡ false
    → IsScreened e
not_first l listed e k other rest = k (rw (other, rest) refl)

test_each-IsScreened :
    (probe : RpcEntry → Outcome) (listed : List RpcEntry) (r : Registry)
    → Distinct r.entries
    → All (λ e. is_probed e listed ≡ false → IsScreened e) r.entries
    → Distinct (test_each probe listed r).entries
      × All IsScreened (test_each probe listed r).entries
unfolding test_each
test_each-IsScreened probe [] r d h = (d, All-map _ _ (λ e k. k refl) r.entries h)
test_each-IsScreened probe (l ∷ listed) r d h =
    test_each-IsScreened probe listed (test_one l.id (probe l) r)
      (test_one-Distinct l.id (probe l) r d)
      (test_one-All l.id (probe l) r d _ (λ e s k. s)
        (All-map _ _ (not_first l listed) r.entries h))

module _ (e : RpcEntry) (p : RpcEntry → Bool) where
  listed-insert :
      (x : RpcEntry) (es : List RpcEntry)
      → is_probed e (filter p (insert_entry x es)) ≡ is_probed e (filter p (x ∷ es))
  unfolding insert_entry
  listed-insert x [] = refl
  listed-insert x (y ∷ es) = ground (arith, listed-insert x es)

  listed-sorted :
      (es : List RpcEntry) → is_probed e (filter p (by_reputation es)) ≡ is_probed e (filter p es)
  unfolding by_reputation
  listed-sorted [] = refl
  listed-sorted (x ∷ es) = listed-insert x (by_reputation es) ∙ ground (arith, listed-sorted es)

used-listed :
    (es : List RpcEntry) → All (λ e. in_use e ≡ true → is_probed e (filter in_use es) ≡ true) es
used-listed [] = tt
used-listed (x ∷ es) = (
  (λ used. rw used (ground arith)),
  All-map _ _ (λ e k used. ground (arith, k used)) es (used-listed es),
)

-- Where the keys are keys, they stay so in a round of tests, and after it every endpoint that is
-- still in use has a reputation above -20, however low it was before and whatever the probes
-- show.
pub test_all-IsScreened :
    (probe : RpcEntry → Outcome) (r : Registry)
    → Distinct r.entries
    → Distinct (test_all probe r).entries × All IsScreened (test_all probe r).entries
unfolding test_all list_all
test_all-IsScreened probe r d =
    test_each-IsScreened probe (filter in_use (by_reputation r.entries)) r d (
      All-map _ _
        (λ e k unlisted used.
          absurd (cc (k (ap not used), listed-sorted e in_use r.entries, unlisted)))
        r.entries (used-listed r.entries))
