-- ===== src/Store/Keys.antt =====
-- The API keys of tripmate/database/store.py. SHA-256 (`digest`) and `str.strip` are not code of the
-- repository and are parameters. A profile that the source builds without a `password_hash` has
-- an empty one here.
use Prim.Native.String.{◌++◌ as append}
use text.Mathlib.TextPositions.{eq_refl}
use multi_ai_agent.Common.{
  ℕ, String, true, not, Option, none, some, ◌≡◌, refl, inl, inr, arith, truthy, if◌then◌else◌,
  Option-cases, is_some,
}
use multi_ai_agent.Common.Dict.{lookup, insert, lookup-insert}
use multi_ai_agent.Store.{Attempt, no_pool, answered, DataStore, User, ApiKey, ensure_user_exists}
use multi_ai_agent.Store.Users.{get_user_by_id}

-- The profile of a user who is known by an identifier only.
abbrev key_user : ℕ → String → User
key_user now user_id = record {
  id = user_id;
  username = user_id;
  email = append user_id "@tripmate.ai";
  password_hash = "";
  role = "user";
  created_at = now;
}

add_user : ℕ → String → DataStore → DataStore
add_user now user_id s =
    if is_some (lookup user_id s.users)
    then s
    else record s { users = insert user_id (key_user now user_id) s.users }

-- `raw_key` is the fresh key; the statement has no effect here whether it succeeds or fails.
unfoldable pub create_api_key :
    (String → String) → ℕ → String → String → String → DataStore → DataStore × String
unfolding add_user
create_api_key digest now raw_key user_id name store =
    let s = ensure_user_exists now user_id store in
    let key : ApiKey = record {
      key_hash = digest raw_key;
      user_id = user_id;
      name = name;
      created_at = now;
    } in
    (add_user now user_id (record s { api_keys = insert (digest raw_key) key s.api_keys }), raw_key)

profile_or_default : ℕ → String → DataStore × Option User → DataStore × Option User
profile_or_default now user_id (s, none) = (s, some (key_user now user_id))
profile_or_default now user_id (s, some user) = (s, some user)

-- The half that goes by memory; it reads the user by `get_user_by_id`, which may ask the database.
unfoldable pub find_in_memory :
    ℕ → Attempt (Option User) → String → DataStore → DataStore × Option User
unfolding profile_or_default
find_in_memory now read key_hash s = elim (lookup key_hash s.api_keys) [
  | none ↦ (s, none)
  | some key ↦ profile_or_default now key.user_id (get_user_by_id read key.user_id s)
]

-- `row` is the active key's user in the database; where there is none the memory decides.
unfoldable pub get_user_by_api_key :
    (String → String)
    → (String → String)
    → ℕ
    → Attempt (Option User)
    → Attempt (Option User)
    → String
    → DataStore
    → DataStore × Option User
get_user_by_api_key digest strip now row read raw_key s =
    if not (truthy raw_key) then (s, none) else (elim row [
      | answered found ↦ elim found [
        | some u ↦ (record s { users = insert u.id u s.users }, some u)
        | none ↦ find_in_memory now read (digest (strip raw_key)) s
      ]
      | _ ↦ find_in_memory now read (digest (strip raw_key)) s
    ])

add_user_known :
    (now : ℕ) (user_id : String) (s : DataStore)
    → (u : User) × (lookup user_id (add_user now user_id s).users ≡ some u)
unfolding add_user
add_user_known now user_id s = elim (Option-cases (lookup user_id s.users)) [
  | inl gone ↦ (key_user now user_id, rw gone (simp (lookup-insert, eq_refl)))
  | inr (u, there) ↦ (u, rw there there)
]

add_user_keys :
    (now : ℕ) (user_id : String) (s : DataStore) → (add_user now user_id s).api_keys ≡ s.api_keys
unfolding add_user
add_user_keys now user_id s = ground arith

key_opens :
    (digest strip : String → String) (later : ℕ) (raw_key : String) (key : ApiKey) (u : User)
    (s : DataStore)
    → truthy raw_key ≡ true
    → lookup (digest (strip raw_key)) s.api_keys ≡ some key
    → lookup key.user_id s.users ≡ some u
    → get_user_by_api_key digest strip later no_pool no_pool raw_key s ≡ (s, some u)
unfolding get_user_by_api_key find_in_memory get_user_by_id
key_opens digest strip later raw_key key u s there found known =
    rw there (rw (found, find_in_memory) (rw (known, profile_or_default) refl))

-- Without a database a fresh key opens the account of the user it was made for: the user is known
-- afterwards, the key answers with that user, and looking it up changes nothing.
get_user-create_api_key :
    (digest strip : String → String) (now later : ℕ) (raw_key user_id name : String) (s : DataStore)
    → truthy raw_key ≡ true
    → strip raw_key ≡ raw_key
    → let (s', key) = create_api_key digest now raw_key user_id name s in
      (u : User) × (lookup user_id s'.users ≡ some u)
      × (get_user_by_api_key digest strip later no_pool no_pool key s' ≡ (s', some u))
unfolding create_api_key
get_user-create_api_key digest strip now later raw_key user_id name s there bare =
    let made = ensure_user_exists now user_id s in
    let key : ApiKey = record {
      key_hash = digest raw_key;
      user_id = user_id;
      name = name;
      created_at = now;
    } in
    let s' = record made { api_keys = insert (digest raw_key) key made.api_keys } in
    let (u, known) = add_user_known now user_id s' in
    (
      u,
      known,
      key_opens digest strip later raw_key key u (add_user now user_id s') there
          (rw bare (rw (add_user_keys now user_id s') (simp (lookup-insert, eq_refl)))) known,
    )
