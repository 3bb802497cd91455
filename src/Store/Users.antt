-- ===== src/Store/Users.antt =====
-- The user operations of tripmate/database/store.py. `lower` and `strip` are those of Python's `str`.
use multi_ai_agent.Common.{
  ℕ, String, Bool, true, false, ◌||◌, Option, none, some, List, [], ◌∷◌, ◌≡◌, refl, ◌⊎◌, inl, inr,
  arith, str_eq, All, if◌then◌else◌, Bool-cases,
}
use multi_ai_agent.Common.Dict.{
  lookup, insert, erase, lookup-erase, values, passes, drop_where, lookup-drop_where,
}
use multi_ai_agent.Store.{Attempt, failed, answered, DataStore, User}

-- A row that was read is kept in memory under its identifier.
unfoldable pub cache_user : Option User → DataStore → DataStore
cache_user none s = s
cache_user (some u) s = record s { users = insert u.id u s.users }

abbrev pub or_else {ℓ} : {A : Type ℓ} → Option A → Option A → Option A
or_else none other = other
or_else (some a) other = some a

-- A missing row falls back to memory, as a failure does.
unfoldable pub get_user_by_id : Attempt (Option User) → String → DataStore → DataStore × Option User
unfolding cache_user
get_user_by_id read user_id s = elim read [
  | answered row ↦ (
    elim row [ none ↦ s | some u ↦ record s { users = insert user_id u s.users } ],
    or_else row (lookup user_id s.users),
  )
  | _ ↦ (s, lookup user_id s.users)
]

abbrev pub named : String → User → Bool
named ident u = str_eq u.username ident || str_eq u.email ident

-- The loop over the users in memory: the first that fits.
unfoldable pub find_user : String → List User → Option User
find_user ident [] = none
find_user ident (u ∷ us) = if named ident u then some u else find_user ident us

unfoldable pub list_users : Attempt (List User) → DataStore → List User
list_users read s = elim read [
  | answered rows ↦ elim rows [ [] ↦ values s.users | u ∷ us ↦ u ∷ us ]
  | _ ↦ values s.users
]

module _ (lower strip : String → String) where
  -- `none` is the re-raised exception of a failed write.
  unfoldable pub create_user :
      ℕ
      → String
      → Attempt (Unit {0})
      → String
      → String
      → String
      → String
      → DataStore
      → DataStore × Option User
  create_user now user_id write username email password_hash role s =
      let user : User = record {
        id = user_id;
        username = lower username;
        email = lower email;
        password_hash = password_hash;
        role = role;
        created_at = now;
      } in
      elim write [
        | failed ↦ (s, none)
        | _ ↦ (record s { users = insert user_id user s.users }, some user)
      ]

  unfoldable pub get_user_by_username_or_email :
      Attempt (Option User) → String → DataStore → DataStore × Option User
  unfolding cache_user find_user
  get_user_by_username_or_email read identifier s = elim read [
    | answered row ↦
        (cache_user row s, or_else row (find_user (lower (strip identifier)) (values s.users)))
    | _ ↦ (s, find_user (lower (strip identifier)) (values s.users))
  ]

  -- The keys of `to_del`. The statement in the database strips the identifier too.
  unfoldable pub to_delete : String → User → Bool
  to_delete identifier u = str_eq u.username (lower identifier) || str_eq u.email (lower identifier)

  unfoldable pub delete_user : String → DataStore → DataStore
  delete_user identifier s = record s {
    users = drop_where (to_delete identifier) (erase identifier s.users);
  }

  find_user_sound :
      (ident : String) (us : List User) (u : User)
      → find_user ident us ≡ some u
      → named ident u ≡ true
  unfolding find_user
  find_user_sound ident [] u e = absurd (ground (arith, e))
  find_user_sound ident (v ∷ us) u e = ground (arith, find_user_sound ident us u)

  find_user_complete :
      (ident : String) (us : List User)
      → find_user ident us ≡ none
      → All (λ u. named ident u ≡ false) us
  unfolding find_user
  find_user_complete ident [] e = tt
  find_user_complete ident (v ∷ us) e = elim (Bool-cases (named ident v)) [
    | inl y ↦ absurd (ground (arith, e, y))
    | inr n ↦ (n, find_user_complete ident us (rw n at e))
  ]

  -- Without an answer from the database: a user that is found has the stripped, lower-cased
  -- identifier as name or address, and where none is found no user in memory has it.
  find_by_name_or_email :
      (identifier : String) (s : DataStore)
      → let found = (get_user_by_username_or_email failed identifier s).1 in
        ((found ≡ none) × All (λ u. named (lower (strip identifier)) u ≡ false) (values s.users))
        ⊎ ((u : User) × (found ≡ some u) × (named (lower (strip identifier)) u ≡ true))
  unfolding get_user_by_username_or_email
  find_by_name_or_email identifier s =
      go (find_user (lower (strip identifier)) (values s.users)) refl
    where
      go :
          (o : Option User)
          → find_user (lower (strip identifier)) (values s.users) ≡ o
          → ((find_user (lower (strip identifier)) (values s.users) ≡ none)
              × All (λ u. named (lower (strip identifier)) u ≡ false) (values s.users))
            ⊎ ((u : User) × (find_user (lower (strip identifier)) (values s.users) ≡ some u)
                × (named (lower (strip identifier)) u ≡ true))
      go none e = inl (e, find_user_complete (lower (strip identifier)) (values s.users) e)
      go (some u) e = inr (u, e, find_user_sound (lower (strip identifier)) (values s.users) u e)

  -- After a deletion no user is left in memory under that identifier, or with its lower-cased form
  -- as name or address; every other user is as before.
  delete_user_lem :
      (identifier k : String) (s : DataStore)
      → let left = lookup k (delete_user identifier s).users in
        (left ≡ none)
        ⊎ ((left ≡ lookup k s.users)
            × (str_eq identifier k ≡ false)
            × (passes (to_delete identifier) left ≡ false))
  unfolding delete_user
  delete_user_lem identifier k s = ground (
    arith,
    lookup-drop_where (to_delete identifier) k (erase identifier s.users),
    lookup-erase identifier k s.users,
  )
