-- ===== src/Access.antt =====
-- tripmate/api/dependencies.py: who is let in. The texts of the headers arrive as Python's string
-- methods leave them: the key of `X-API-Key`, stripped, and what follows `bearer `, stripped, each
-- absent where the header is. Splitting a header and checking a token's signature are done by
-- the standard library and stand here as arguments. An exception is its HTTP status,
-- 500 where nothing catches it.
pub mod Rules
use multi_ai_agent.Common.{
  ℕ, String, Bool, true, false, not, ◌&&◌, ◌||◌, Option, none, some, List, [], ◌∷◌, ◌≡◌, refl, ◌⊎◌,
  inl, inr, arith, str_eq, eq_iff, truthy, if◌then◌else◌, is_some, ltb,
}
use Prim.Native.Char.{code}
use multi_ai_agent.Store.{DataStore, User, Attempt, or_empty}
use multi_ai_agent.Store.Users.{get_user_by_id}
use multi_ai_agent.Store.Keys.{get_user_by_api_key}
use multi_ai_agent.Store.Threads.{get_thread_owner}

pub data Reply {ℓ} (A : Type ℓ) : Type ℓ where
  refused : ℕ → Reply A
  granted : A → Reply A

-- The settings read here.
pub record Settings : Type 0 where
  pub api_key : String
  pub auth_required : Bool

-- The claims of a signed token, each empty where it is absent.
pub record Claims : Type 0 where
  pub uid : String
  pub sub : String
  pub usr : String
  pub username : String
  pub email : Option String
  pub rol : String
  pub role : Option String

-- `X-API-Key` goes first; a blank header counts as absent.
unfoldable pub provided_key : Option String → Option String → String
provided_key x_api_key bearer =
    if truthy (or_empty x_api_key) then or_empty x_api_key else or_empty bearer

unfoldable pub is_ascii : String → Bool
is_ascii String.[] = true
is_ascii (String.◌∷◌ c s) = ltb (code c) 128 && is_ascii s

-- `secrets.compare_digest` on two texts: `none` is the TypeError of one that is not ASCII.
unfoldable pub compare_digest : String → String → Option Bool
unfolding is_ascii
compare_digest a b = if is_ascii a && is_ascii b then some (str_eq a b) else none

-- `expected_key and secrets.compare_digest(provided_key, expected_key)`
unfoldable pub is_master_key : Settings → String → Option Bool
unfolding compare_digest
is_master_key s key = if truthy s.api_key then compare_digest key s.api_key else some false

open_mode : Settings → String → Reply String
unfolding compare_digest
open_mode s key =
    if not (truthy key)
    then granted "anonymous_dev_user"
    else (if truthy s.api_key
        then elim (compare_digest key s.api_key) [
          | none ↦ refused 500
          | some true ↦ granted key
          | some false ↦ refused 401
        ]
        else granted key)

enforced_mode : Settings → (String → Option Claims) → String → Reply String
unfolding is_master_key
enforced_mode s verify_token key =
    if not (truthy key) then refused 401 else elim (is_master_key s key) [
      | none ↦ refused 500
      | some true ↦ granted key
      | some false ↦ if is_some (verify_token key) then granted key else refused 401
    ]

unfoldable pub verify_api_key :
    Settings → (String → Option Claims) → Option String → Option String → Reply String
unfolding provided_key open_mode enforced_mode is_master_key compare_digest
verify_api_key s verify_token x_api_key bearer =
    let key = provided_key x_api_key bearer in
    if s.auth_required then enforced_mode s verify_token key else open_mode s key

-- The profile that a token's claims give where the store has no such user.
abbrev first_of : String → String → String
first_of a b = if truthy a then a else b

unfoldable pub claimed_user : (String → String) → Claims → User
claimed_user mail_of c =
    let uid = first_of c.uid c.sub in
    record {
      id = uid;
      username = first_of c.usr (first_of c.sub (first_of c.username uid));
      email = elim c.email [ none ↦ mail_of uid | some e ↦ e ];
      password_hash = "";
      role = first_of c.rol (elim c.role [ none ↦ "user" | some r ↦ r ]);
      created_at = 0;
    }

-- What the calls of the store answered, in the order they are made.
pub record Reads : Type 0 where
  pub by_id : Attempt (Option User)
  pub by_key : Attempt (Option User)
  pub key_owner : Attempt (Option User)

-- The parts of the environment that the resolution asks.
pub record Env : Type 0 where
  pub settings : Settings
  pub verify_token : String → Option Claims
  pub digest : String → String
  pub strip : String → String
  pub mail_of : String → String
  pub now : ℕ

abbrev pub admin_user : User
admin_user = record {
  id = "user_admin_001";
  username = "admin";
  email = "admin@tripmate.ai";
  password_hash = "";
  role = "admin";
  created_at = 0;
}

abbrev pub demo_user : User
demo_user = record {
  id = "user_demo_002";
  username = "demouser";
  email = "user@tripmate.ai";
  password_hash = "";
  role = "user";
  created_at = 0;
}

-- A `Bearer` header goes first here, also one with nothing behind the word, and `X-API-Key` is read
-- only where there is none.
unfoldable pub given_token : Option String → Option String → String
given_token x_api_key bearer = elim bearer [ some t ↦ t | none ↦ or_empty x_api_key ]

by_master_key : Env → String → DataStore → DataStore × Reply User
unfolding is_master_key
by_master_key env token s =
    let other : Reply User =
      if not env.settings.auth_required && not (truthy token)
      then granted demo_user
      else refused 401 in
    let answer : Reply User = elim (is_master_key env.settings token) [
      | none ↦ refused 500
      | some true ↦ granted admin_user
      | some false ↦ other
    ] in
    (s, if truthy token then answer else other)

or_master_key : Env → String → DataStore × Option User → DataStore × Reply User
or_master_key env token (s, some u) = (s, granted u)
or_master_key env token (s, none) = by_master_key env token s

or_claimed : Env → Claims → DataStore × Option User → DataStore × Reply User
or_claimed env c (s, some u) = (s, granted u)
or_claimed env c (s, none) = (s, granted (claimed_user env.mail_of c))

by_token : Env → Reads → String → Option Claims → DataStore → DataStore × Reply User
by_token env reads token (some c) s =
    or_claimed env c (get_user_by_id reads.by_id (first_of c.uid c.sub) s)
by_token env reads token none s =
    or_master_key env token
      (get_user_by_api_key env.digest env.strip env.now reads.by_key reads.key_owner token s)

unfoldable pub get_current_user :
    Env → Reads → Option String → Option String → DataStore → DataStore × Reply User
unfolding given_token by_token or_claimed or_master_key by_master_key
get_current_user env reads x_api_key bearer s =
    let token = given_token x_api_key bearer in
    if truthy token
    then by_token env reads token (env.verify_token token) s
    else by_master_key env token s

admit_admin : DataStore × Reply User → DataStore × Reply User
admit_admin (s, refused code) = (s, refused code)
admit_admin (s, granted u) = (s, if str_eq u.role "admin" then granted u else refused 403)

unfoldable pub require_admin :
    Env → Reads → Option String → Option String → DataStore → DataStore × Reply User
unfolding admit_admin
require_admin env reads x_api_key bearer s =
    admit_admin (get_current_user env reads x_api_key bearer s)

-- `not registered_owner or (request_user_id and registered_owner != request_user_id)`
unfoldable pub is_denied : Option String → Option String → Bool
is_denied owner requester =
    not (truthy (or_empty owner))
    || (truthy (or_empty requester) && not (str_eq (or_empty owner) (or_empty requester)))

unfoldable pub validate_thread_ownership :
    Attempt (Option String) → String → Option String → DataStore → DataStore × Reply Bool
unfolding is_denied
validate_thread_ownership read thread_id requester s =
    if not (truthy thread_id)
    then (s, granted true)
    else (let (s', owner) = get_thread_owner read thread_id s in
        (s', if is_denied owner requester then refused 404 else granted true))
