-- ===== src/Auth/Accounts.antt =====
-- Accounts of tripmate/services/auth_service.py: what a registration stores, and which role it may
-- assign.
use multi_ai_agent.Common.{
  ℕ, String, Bool, true, Option, none, some, ◌≡◌, refl, sym, ap, ◌⊎◌, inl, inr, arith, truthy,
  Option-cases, eq_iff,
}
use multi_ai_agent.Common.Dict.{Dict, lookup, insert, values, lookup-insert}
use multi_ai_agent.Store.{Attempt, no_pool, failed, answered, DataStore, User, or_empty}
use multi_ai_agent.Store.Users.{create_user, find_user, get_user_by_username_or_email}
use multi_ai_agent.Tokens.{hash_password, generate_token}
use text.Mathlib.TextPositions.{eq_refl}
use multi_ai_agent.Auth.{
  Reply, replied, raised, AuthService, Registration, UserRegisterRequest, TokenResponse,
  assigned_role, token_response, register_user, finish_registration, store_user, check_email,
  token_reply,
}

abbrev pub new_user : AuthService → Registration → UserRegisterRequest → String → User
new_user svc env req role = record {
  id = env.user_id;
  username = svc.lower req.username;
  email = svc.lower req.email;
  password_hash = hash_password svc.lib env.salt req.password "";
  role = role;
  created_at = env.now;
}

module _ (lower strip : String → String) where
  pub not_found :
      (read : Attempt (Option User)) (ident : String) (s : DataStore)
      → (get_user_by_username_or_email lower strip read ident s).1 ≡ none
      → (get_user_by_username_or_email lower strip read ident s ≡ (s, none))
        × (find_user (lower (strip ident)) (values s.users) ≡ none)
  unfolding get_user_by_username_or_email
  not_found no_pool ident s e = (ap (λ o. (s, o)) e, e)
  not_found failed ident s e = (ap (λ o. (s, o)) e, e)
  not_found (answered none) ident s e = (ap (λ o. (s, o)) e, e)
  not_found (answered (some u)) ident s e = absurd (ground (arith, e))

-- A registration that is answered found nobody by the name or the address, and stored the account.
unfoldable pub Registered :
    AuthService
    → Registration
    → UserRegisterRequest
    → String
    → DataStore
    → DataStore × Reply TokenResponse
    → TokenResponse
    → Type 0
Registered svc env req role s out r =
    (find_user (svc.lower (svc.strip req.username)) (values s.users) ≡ none)
    × (find_user (svc.lower (svc.strip req.email)) (values s.users) ≡ none)
    × (out.0 ≡ record s { users = insert env.user_id (new_user svc env req role) s.users })
    × (token_response svc env.now (new_user svc env req role) ≡ replied r)

module _ (svc : AuthService) (env : Registration) (req : UserRegisterRequest)
    (admin_secret : Option String) (is_caller_admin : Bool) where
  abbrev role : String
  role = assigned_role svc req.role admin_secret is_caller_admin

  stored :
      (s : DataStore) (w : Attempt (Unit {0})) (r : TokenResponse)
      → let out = finish_registration svc env.now (
          create_user svc.lower svc.strip env.now env.user_id w req.username req.email
            (hash_password svc.lib env.salt req.password "")
            role
            s) in
        out.1 ≡ replied r
        → (out.0 ≡ record s { users = insert env.user_id (new_user svc env req role) s.users })
          × (token_response svc env.now (new_user svc env req role) ≡ replied r)
  unfolding create_user finish_registration
  stored s no_pool r e = (refl, e)
  stored s failed r e = absurd (ground (arith, e))
  stored s (answered done) r e = (refl, e)

  name_free :
      (p : DataStore × Option User) (r : TokenResponse)
      → (check_email svc env req admin_secret is_caller_admin p).1 ≡ replied r
      → p.1 ≡ none
  unfolding check_email
  name_free (s, none) r e = refl
  name_free (s, some u) r e = absurd (ground (arith, e))

  email_free :
      (p : DataStore × Option User) (r : TokenResponse)
      → (store_user svc env req admin_secret is_caller_admin p).1 ≡ replied r
      → p.1 ≡ none
  unfolding store_user
  email_free (s, none) r e = refl
  email_free (s, some u) r e = absurd (ground (arith, e))

  email_step :
      (s : DataStore) (r : TokenResponse)
      → let out = check_email svc env req admin_secret is_caller_admin (s, none) in
        out.1 ≡ replied r
        → (find_user (svc.lower (svc.strip req.email)) (values s.users) ≡ none)
          × (out.0 ≡ record s { users = insert env.user_id (new_user svc env req role) s.users })
          × (token_response svc env.now (new_user svc env req role) ≡ replied r)
  unfolding check_email store_user
  email_step s r e =
      let q = get_user_by_username_or_email svc.lower svc.strip env.email_read req.email s in
      let (same, absent_here) =
        not_found svc.lower svc.strip env.email_read req.email s (email_free q r e) in
      let (out, token) = stored s env.write r (rw same at e) in (absent_here, rw same out, token)

  pub register_user_lem :
      (s : DataStore) (r : TokenResponse)
      → (register_user svc env req admin_secret is_caller_admin s).1 ≡ replied r
      → Registered svc env req role s (register_user svc env req admin_secret is_caller_admin s) r
  unfolding register_user Registered
  register_user_lem s r e =
      let q = get_user_by_username_or_email svc.lower svc.strip env.name_read req.username s in
      let (same, absent_here) =
        not_found svc.lower svc.strip env.name_read req.username s (name_free q r e) in
      let (email, out, token) = email_step s r (rw same at e) in
      (absent_here, email, rw same out, token)

replied_inj : (a b : TokenResponse) → ◌≡◌ {A = Reply TokenResponse} (replied a) (replied b) → a ≡ b
replied_inj a b e = ap (λ x. elim x [ replied r ↦ r | raised _ ↦ a ]) e

abbrev pub bearer : String → User → TokenResponse
bearer token u = record {
  access_token = token;
  user_id = u.id;
  username = u.username;
  role = u.role;
}

pub token_response_lem :
    (svc : AuthService) (now : ℕ) (u : User) (r : TokenResponse)
    → token_response svc now u ≡ replied r
    → (token : String) × (generate_token svc.lib svc.signing now u.id u.username u.role
        ≡ some token)
      × (bearer token u ≡ r)
unfolding token_response token_reply
token_response_lem svc now u r e =
    elim (Option-cases (generate_token svc.lib svc.signing now u.id u.username u.role)) [
      | inl no_key ↦ absurd (ground (arith, rw (token_response, no_key) at e))
      | inr (token, made) ↦
          (token, made, replied_inj (bearer token u) r (rw (token_response, made) at e))
    ]

assigned_role_cases :
    (svc : AuthService) (asked : String) (admin_secret : Option String) (is_caller_admin : Bool)
    → let role = assigned_role svc asked admin_secret is_caller_admin in
      (role ≡ "user")
      ⊎ ((asked ≡ "admin")
          × ((is_caller_admin ≡ true)
              ⊎ ((truthy svc.admin_registration_secret ≡ true)
                  × (svc.strip (or_empty admin_secret) ≡ svc.admin_registration_secret))))
unfolding assigned_role
assigned_role_cases svc asked admin_secret is_caller_admin = ground (
  arith,
  eq_iff asked "admin",
  eq_iff (svc.strip (or_empty admin_secret)) svc.admin_registration_secret,
)

found_new : (id : String) (u : User) (d : Dict User) → lookup id (insert id u d) ≡ some u
found_new id u d = simp (lookup-insert, eq_refl)

-- The role of an answered registration is `user`, unless `admin` was asked for by an administrator, or
-- with the configured, nonempty secret, blanks around it aside. The account is stored with that role.
pub register_user_role :
    (svc : AuthService) (env : Registration) (req : UserRegisterRequest)
    (admin_secret : Option String) (is_caller_admin : Bool) (s : DataStore) (r : TokenResponse)
    → (register_user svc env req admin_secret is_caller_admin s).1 ≡ replied r
    → let s' = (register_user svc env req admin_secret is_caller_admin s).0 in
      (lookup env.user_id s'.users ≡ some (new_user svc env req r.role))
      × ((r.role ≡ "user")
          ⊎ ((req.role ≡ "admin")
              × ((is_caller_admin ≡ true)
                  ⊎ ((truthy svc.admin_registration_secret ≡ true)
                      × (svc.strip (or_empty admin_secret) ≡ svc.admin_registration_secret)))))
unfolding Registered
register_user_role svc env req admin_secret is_caller_admin s r e =
    let assigned = assigned_role svc req.role admin_secret is_caller_admin in
    let (name, email, out, reply) =
      register_user_lem svc env req admin_secret is_caller_admin s r e in
    let (token, made, is_r) =
      token_response_lem svc env.now (new_user svc env req assigned) r reply in
    (
      rw (out, sym is_r) (found_new env.user_id (new_user svc env req assigned) s.users),
      rw (sym is_r) (assigned_role_cases svc req.role admin_secret is_caller_admin),
    )
