-- ===== src/RpcRegistry/Endpoints.antt =====
-- guardian-network/src/guardian/rpc-registry.ts: adding, removing and choosing endpoints.
use attested_capital.Base.{
  ℕ, suc, ◌==◌, str_eq, not, ◌&&◌, String, Bool, true, false, Option, none, some, List, [], ◌∷◌,
  ◌++◌, All, All-map, any, filter, find, length, if◌then◌else◌, ◌≡◌, refl, sym, subst, ◌⊎◌, inl,
  inr, arith,
}
use attested_capital.Base.Int.{ℤ, pos}
use attested_capital.RpcRegistry.{
  RpcStatus, active, trial, deprecated, RpcEntry, Registry, is_deprecated, is_trial, has_rpc_key,
  ltb_ℤ, insert_entry, by_reputation,
}

abbrev pub has_rpc_url : String → RpcEntry → Bool
has_rpc_url url e = str_eq e.url url

abbrev pub new_entry : ℕ → String → String → String → RpcEntry
new_entry id chain url added_by = record {
  id = id;
  chain = chain;
  url = url;
  added_by = added_by;
  status = RpcStatus.trial;
  reputation = pos 0;
  latency_ms = none;
}

-- The key, or nothing where the table refuses the row: a url is UNIQUE.
unfoldable pub add_endpoint : String → String → String → Registry → Option ℕ × Registry
add_endpoint chain url added_by r = if any (has_rpc_url url) r.entries then (none, r) else (
  some (suc r.last_entry),
  record r {
    entries = r.entries ++ new_entry (suc r.last_entry) chain url added_by ∷ [];
    last_entry = suc r.last_entry;
  },
)

unfoldable pub get_by_url : String → Registry → Option RpcEntry
get_by_url url r = find (has_rpc_url url) r.entries

-- Whether a row was removed, and the registry without it and its results.
unfoldable pub remove_endpoint : ℕ → Registry → Bool × Registry
remove_endpoint key r = (
  any (has_rpc_key key) r.entries,
  record r {
    entries = filter (λ e. not (has_rpc_key key e)) r.entries;
    results = filter (λ t. not (t.rpc_id == key)) r.results;
  },
)

abbrev pub is_active_status : RpcStatus → Bool
is_active_status active = true
is_active_status trial = false
is_active_status deprecated = false

unfoldable pub list_by_chain : String → Bool → Registry → List RpcEntry
list_by_chain chain include_deprecated r =
    if include_deprecated
    then by_reputation (filter (λ e. str_eq e.chain chain) r.entries)
    else by_reputation
        (filter (λ e. str_eq e.chain chain && not (is_deprecated e.status)) r.entries)

abbrev pub is_usable : String → RpcEntry → Bool
is_usable chain e = str_eq e.chain chain && is_active_status e.status

abbrev pub best_row : List RpcEntry → Option RpcEntry
best_row [] = none
best_row (e ∷ rest) = some e

unfoldable pub get_best : String → Registry → Option RpcEntry
get_best chain r = best_row (by_reputation (filter (is_usable chain) r.entries))

pub record Stats : Type 0 where
  pub total : ℕ
  pub active : ℕ
  pub trial : ℕ
  pub deprecated : ℕ

unfoldable pub rpc_stats : Registry → Stats
rpc_stats r = record {
  total = length r.entries;
  active = length (filter (λ e. is_active_status e.status) r.entries);
  trial = length (filter (λ e. is_trial e.status) r.entries);
  deprecated = length (filter (λ e. is_deprecated e.status) r.entries);
}

-- No reputation of the list is greater.
abbrev pub Tops : RpcEntry → List RpcEntry → Type 0
Tops e = All (λ f. ltb_ℤ e.reputation f.reputation ≡ false)

ltb_ℤ-refl : (a : ℤ) → ltb_ℤ a a ≡ false
ltb_ℤ-refl a = ground arith

ltb_ℤ-flips : (a b : ℤ) → ltb_ℤ a b ≡ true → ltb_ℤ b a ≡ false
ltb_ℤ-flips a b h = ground arith

ltb_ℤ-climbs : (a b c : ℤ) → ltb_ℤ a b ≡ false → ltb_ℤ b c ≡ false → ltb_ℤ a c ≡ false
ltb_ℤ-climbs a b c h i = ground arith

abbrev pub Among : RpcEntry → List RpcEntry → Type 0
Among e [] = ⊥
Among e (f ∷ rest) = (e ≡ f) ⊎ Among e rest

-- A row of the list with the greatest reputation, or nothing of an empty list.
abbrev pub IsBest : List RpcEntry → Option RpcEntry → Type 0
IsBest l none = l ≡ []
IsBest l (some e) = Among e l × Tops e l

-- The better one of a row and what came first.
abbrev better : RpcEntry → Option RpcEntry → Option RpcEntry
better x none = some x
better x (some f) = if ltb_ℤ x.reputation f.reputation then some f else some x

best_row-insert_entry :
    (x : RpcEntry) (es : List RpcEntry) → best_row (insert_entry x es) ≡ better x (best_row es)
unfolding insert_entry
best_row-insert_entry x [] = refl
best_row-insert_entry x (f ∷ es) = by_test (ltb_ℤ x.reputation f.reputation)
  where
    by_test :
        (b : Bool)
        → best_row (if b then f ∷ insert_entry x es else x ∷ f ∷ es)
          ≡ (if b then some f else some x)
    by_test true = refl
    by_test false = refl

better-IsBest :
    (x : RpcEntry) (l : List RpcEntry) (o : Option RpcEntry)
    → IsBest l o
    → IsBest (x ∷ l) (better x o)
better-IsBest x l none h =
    subst (λ m. IsBest (x ∷ m) (some x)) (sym h) (inl refl, (ltb_ℤ-refl x.reputation, tt))
better-IsBest x l (some f) h = by_test (ltb_ℤ x.reputation f.reputation) refl
  where
    by_test :
        (b : Bool)
        → ltb_ℤ x.reputation f.reputation ≡ b
        → IsBest (x ∷ l) (if b then some f else some x)
    by_test true e = (inr h.0, (ltb_ℤ-flips x.reputation f.reputation e, h.1))
    by_test false e = (
      inl refl,
      (
        ltb_ℤ-refl x.reputation,
        All-map _ _ (λ g top. ltb_ℤ-climbs x.reputation f.reputation g.reputation e top) l h.1,
      ),
    )

by_reputation-IsBest : (l : List RpcEntry) → IsBest l (best_row (by_reputation l))
unfolding by_reputation
by_reputation-IsBest [] = refl
by_reputation-IsBest (x ∷ l) =
    subst (IsBest (x ∷ l)) (sym (best_row-insert_entry x (by_reputation l)))
      (better-IsBest x l _ (by_reputation-IsBest l))

-- The best endpoint of a chain is an active one of the chain, and none of those has a greater
-- reputation; there is none only if the chain has no active endpoint.
pub get_best-IsBest :
    (chain : String) (r : Registry) → IsBest (filter (is_usable chain) r.entries) (get_best chain r)
unfolding get_best
get_best-IsBest chain r = by_reputation-IsBest (filter (is_usable chain) r.entries)
