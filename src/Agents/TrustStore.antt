-- ===== src/Agents/TrustStore.antt =====
-- guardian-network/src/shared/trust-store.ts: the class `TrustStore`. A Map keeps its entries in
-- the order in which their keys were added. The texts that `onEvent` gets are left out.
use attested_capital.Base.{
  ℕ, str_eq, str_eq_iff, not, String, Bool, true, false, Option, none, some, List, [], ◌∷◌, any,
  find, filter, length, update, if◌then◌else◌, ◌++◌, ◌≡◌, arith,
}
use attested_capital.Envelope.Nonces.{Tracker}

pub record TrustedPeer : Type 0 where
  pub id : String
  pub ed25519_pubkey : String
  pub x25519_pubkey : String
  pub attested_at : ℕ
  pub last_verified : ℕ
  pub attestation_quote : Option String
  pub endpoint : Option String
  pub is_sentry : Bool

pub record Trust : Type 0 where
  pub peers : List TrustedPeer
  pub nonces : Tracker

abbrev pub has_id : String → TrustedPeer → Bool
has_id id p = str_eq p.id id

unfoldable pub is_trusted : String → Trust → Bool
is_trusted id t = any (has_id id) t.peers

unfoldable pub add_peer : TrustedPeer → Trust → Trust
unfolding is_trusted
add_peer peer t = record t {
  peers =
      if is_trusted peer.id t
      then update (has_id peer.id) (λ _. peer) t.peers
      else t.peers ++ peer ∷ [];
}

unfoldable pub get_peer : String → Trust → Option TrustedPeer
get_peer id t = find (has_id id) t.peers

unfoldable pub get_peer_by_pubkey : String → Trust → Option TrustedPeer
get_peer_by_pubkey key t = find (λ p. str_eq p.ed25519_pubkey key) t.peers

unfoldable pub is_pubkey_trusted : String → Trust → Bool
unfolding get_peer_by_pubkey
is_pubkey_trusted key t = elim (get_peer_by_pubkey key t) [ none ↦ false | some p ↦ true ]

unfoldable pub remove_peer : String → Trust → Bool × Trust
unfolding is_trusted
remove_peer id t = (is_trusted id t, record t { peers = filter (λ p. not (has_id id p)) t.peers })

unfoldable pub list_sentries : Trust → List TrustedPeer
list_sentries t = filter (λ p. p.is_sentry) t.peers

unfoldable pub size : Trust → ℕ
size t = length t.peers

unfoldable pub touch_peer : ℕ → String → Trust → Bool × Trust
unfolding is_trusted
touch_peer now id t = (
  is_trusted id t,
  record t { peers = update (has_id id) (λ p. record p { last_verified = now }) t.peers },
)

unfoldable pub clear : Trust → Trust
clear t = record t { peers = [] }

find-added :
    (peer : TrustedPeer) (peers : List TrustedPeer)
    → find (has_id peer.id) (
        if any (has_id peer.id) peers
        then update (has_id peer.id) (λ _. peer) peers
        else peers ++ peer ∷ [])
      ≡ some peer
find-added peer [] = ground (arith, str_eq_iff peer.id peer.id)
find-added peer (p ∷ peers) = ground (arith, str_eq_iff peer.id peer.id, find-added peer peers)

pub get_peer-add_peer :
    (peer : TrustedPeer) (t : Trust) → get_peer peer.id (add_peer peer t) ≡ some peer
unfolding get_peer add_peer is_trusted
get_peer-add_peer peer t = find-added peer t.peers
