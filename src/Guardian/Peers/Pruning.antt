-- ===== src/Guardian/Peers/Pruning.antt =====
-- guardian-network/src/guardian/peers.ts: `pruneStale` against `stats`, `heartbeat` and the lists.
use attested_capital.Base.{
  ℕ, suc, ◌+◌, ◌*◌, ◌≤◌, true, false, Bool-cases, inl, inr, List, [], ◌∷◌, any, filter, length,
  String, ◌≡◌, refl, ap, arith,
}
use attested_capital.Guardian.Peers.{
  Peer, has_address, is_active, is_outdated, prune_stale, stats, heartbeat, insert_peer,
  by_last_seen, list_active,
}

-- The rows that are pruned and those that stay are the rows there were.
prune_stale-total :
    (now minutes : ℕ) (rows : List Peer)
    → (prune_stale now minutes rows).0 + length (prune_stale now minutes rows).1 ≡ length rows
unfolding prune_stale
prune_stale-total now minutes [] = refl
prune_stale-total now minutes (p ∷ rows) = ground (arith, prune_stale-total now minutes rows)

-- `pruneStale` leaves the active peers, all of them.
prune_stale-active :
    (now minutes : ℕ) (rows : List Peer)
    → (prune_stale now minutes rows).1 ≡ filter (is_active now minutes) rows
unfolding prune_stale
prune_stale-active now minutes [] = refl
prune_stale-active now minutes (p ∷ rows) = elim (Bool-cases (is_active now minutes p)) [
  | inl is ↦
      let fresh : is_outdated now minutes p ≡ false = ground arith in
      rw (is, fresh) (ap (λ rest. p ∷ rest) (prune_stale-active now minutes rows))
  | inr not_so ↦
      let old : is_outdated now minutes p ≡ true = ground arith in
      rw (not_so, old) (prune_stale-active now minutes rows)
]

-- After it, each peer counts as active.
prune_stale-stats :
    (now minutes : ℕ) (rows : List Peer)
    → (stats now minutes (prune_stale now minutes rows).1).active
      ≡ (stats now minutes (prune_stale now minutes rows).1).total
unfolding stats prune_stale
prune_stale-stats now minutes [] = refl
prune_stale-stats now minutes (p ∷ rows) = elim (Bool-cases (is_active now minutes p)) [
  | inl is ↦
      let fresh : is_outdated now minutes p ≡ false = ground arith in
      rw (fresh, is) (ap suc (prune_stale-stats now minutes rows))
  | inr not_so ↦
      let old : is_outdated now minutes p ≡ true = ground arith in
      rw old (prune_stale-stats now minutes rows)
]

-- A heartbeat keeps its peer from a pruning within the period.
heartbeat-survives :
    (seen now minutes : ℕ) (address : String) (rows : List Peer)
    → now ≤ seen + minutes * 60
    → any (has_address address) (prune_stale now minutes (heartbeat seen address rows).1).1
      ≡ (heartbeat seen address rows).0
unfolding prune_stale heartbeat
heartbeat-survives seen now minutes address [] within = refl
heartbeat-survives seen now minutes address (p ∷ rows) within =
    ground (arith, heartbeat-survives seen now minutes address rows within)

length-insert_peer : (p : Peer) (rows : List Peer) → length (insert_peer p rows) ≡ suc (length rows)
unfolding insert_peer
length-insert_peer p [] = refl
length-insert_peer p (q ∷ rows) = ground (arith, length-insert_peer p rows)

length-by_last_seen : (rows : List Peer) → length (by_last_seen rows) ≡ length rows
unfolding by_last_seen
length-by_last_seen [] = refl
length-by_last_seen (p ∷ rows) =
    ground (arith, length-insert_peer p (by_last_seen rows), length-by_last_seen rows)

-- `stats` counts what `listActive` lists.
stats-list_active :
    (now minutes : ℕ) (rows : List Peer)
    → (stats now minutes rows).active ≡ length (list_active now minutes rows)
unfolding stats list_active
stats-list_active now minutes rows =
    omega (arith, length-by_last_seen (filter (is_active now minutes) rows))
