-- ===== src/Limiter/Client.antt =====
-- `_get_client_ip` and `_get_user_id` of `SlidingWindowRateLimiter`: whom a request is counted for. A
-- header that is missing is none. `is_address` tells whether `ipaddress.ip_address` reads a text, and
-- `in_network` whether an address is in a network: `none` where the network cannot be read.
use text.Mathlib.Text.{starts_with, find?}
use multi_ai_agent.Common.{
  String, Bool, true, false, ◌||◌, Option, none, some, List, [], ◌∷◌, map, keep, any, str_eq,
  is_some, truthy, ◌≡◌, refl, if◌then◌else◌,
}
use multi_ai_agent.Common.Text.{split_all, split_once}
use multi_ai_agent.Store.{DataStore, User, or_empty}

-- The setting TRUSTED_PROXIES: one text, or a list.
pub data Proxies : Type 0 where
  listed : List String → Proxies
  written : String → Proxies

pub record Headers : Type 0 where
  pub forwarded_for : Option String
  pub real_ip : Option String
  pub authorization : Option String
  pub api_key : Option String

module _ (strip lower : String → String) where
  -- `[x.strip() for x in text.split(",") if x.strip()]`
  unfoldable pub listed_in : String → List String
  unfolding split_all
  listed_in text = keep truthy (map strip (split_all "," text))

  unfoldable pub trusted_list : Proxies → List String
  unfolding listed_in
  trusted_list (listed ts) = ts
  trusted_list (written text) = listed_in text

  -- The loop over the networks: an exception ends it, and the peer is not trusted.
  unfoldable pub in_some_network : (String → String → Option Bool) → String → List String → Bool
  in_some_network in_network peer [] = false
  in_some_network in_network peer (t ∷ ts) =
      let rest = in_some_network in_network peer ts in
      if is_some (find? t "/")
      then elim (in_network peer t) [ none ↦ false | some true ↦ true | some false ↦ rest ]
      else rest

  unfoldable pub is_trusted :
      (String → Bool) → (String → String → Option Bool) → Proxies → String → Bool
  unfolding trusted_list in_some_network
  is_trusted is_address in_network proxies peer =
      let trusted = trusted_list proxies in
      if any (str_eq "*") trusted || any (str_eq peer) trusted
      then true
      else if is_address peer
      then in_some_network in_network peer trusted
      else false

  abbrev or_real_ip : Headers → String → String
  or_real_ip h peer =
      if truthy (strip (or_empty h.real_ip)) then strip (or_empty h.real_ip) else peer

  -- `peer` is "127.0.0.1" where the connection has no address.
  unfoldable pub get_client_ip :
      (String → Bool) → (String → String → Option Bool) → Proxies → Headers → String → String
  unfolding is_trusted listed_in
  get_client_ip is_address in_network proxies h peer =
      if is_trusted is_address in_network proxies peer
      then elim (listed_in (or_empty h.forwarded_for)) [
        | [] ↦ or_real_ip h peer
        | first ∷ others ↦ first
      ]
      else peer

  -- The token of a request: the bearer token, or the key of an interface.
  unfoldable pub token_of : Headers → String
  unfolding split_once
  token_of h =
      if starts_with (lower (or_empty h.authorization)) "bearer "
      then elim (split_once " " (or_empty h.authorization)) [ none ↦ "" | some (a, b) ↦ strip b ]
      else strip (or_empty h.api_key)

  abbrev given_id : Option String → Option String
  given_id none = none
  given_id (some id) = if truthy id then some id else none

  -- `verify` gives the `uid` of the claims of a token, `by_key` the user of a key.
  unfoldable pub get_user_id :
      (String → Option String)
      → (String → DataStore → DataStore × Option User)
      → Headers
      → DataStore
      → DataStore × Option String
  unfolding token_of
  get_user_id verify by_key h s =
      let token = token_of h in
      if truthy token
      then elim (given_id (verify token)) [
        | some uid ↦ (s, some uid)
        | none ↦
            let (after, user) = by_key token s in
            elim user [ none ↦ (after, none) | some u ↦ (after, given_id (some u.id)) ]
      ]
      else (s, none)

  -- What a peer that is not trusted sends does not choose whom its requests are counted for.
  get_client_ip_forged :
      (is_address : String → Bool) (in_network : String → String → Option Bool) (proxies : Proxies)
      (h forged : Headers) (peer : String)
      → is_trusted is_address in_network proxies peer ≡ false
      → get_client_ip is_address in_network proxies h peer
        ≡ get_client_ip is_address in_network proxies forged peer
  unfolding get_client_ip
  get_client_ip_forged is_address in_network proxies h forged peer e = rw e refl
