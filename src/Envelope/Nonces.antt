-- ===== src/Envelope/Nonces.antt =====
-- guardian-network/src/shared/signed-envelope.ts: the class `NonceTracker`.
use attested_capital.Base.{
  ℕ, suc, ltb, str_eq, not, String, Bool, true, false, List, [], ◌∷◌, ◌++◌, any, filter, length,
  if◌then◌else◌,
}

-- A Set keeps its members in the order in which they were added.
pub record Tracker : Type 0 where
  pub seen : List String
  pub order : List String

abbrev pub new_tracker : Tracker
new_tracker = record { seen = []; order = [] }

unfoldable pub has : String → List String → Bool
has nonce = any (λ n. str_eq n nonce)

-- `Set.add` and `Set.delete`
unfoldable pub add : String → List String → List String
add nonce seen = if has nonce seen then seen else seen ++ nonce ∷ []

unfoldable pub delete : String → List String → List String
delete nonce = filter (λ n. not (str_eq n nonce))

-- The loop that drops the oldest nonces.
unfoldable pub evict : ℕ → List String → List String → Tracker
evict max_size seen [] = record { seen = seen; order = [] }
evict max_size seen (oldest ∷ rest) =
    let smaller = evict max_size (delete oldest seen) rest in
    if ltb max_size (suc (length rest))
    then smaller
    else record { seen = seen; order = oldest ∷ rest }

-- Whether the nonce is new, and the tracker afterwards.
unfoldable pub check : ℕ → String → Tracker → Bool × Tracker
check max_size nonce t =
    if has nonce t.seen
    then (false, t)
    else (true, evict max_size (add nonce t.seen) (t.order ++ nonce ∷ []))

unfoldable pub size : Tracker → ℕ
size t = length t.seen
