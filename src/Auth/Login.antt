-- ===== src/Auth/Login.antt =====
-- The login of tripmate/services/auth_service.py after a registration.
use multi_ai_agent.Common.{
  ℕ, String, Bool, true, ◌+◌, ◌*◌, ◌≤◌, Option, none, some, [], ◌∷◌, ◌≡◌, refl, sym, ◌⊎◌, inl, inr,
  arith, Option-cases, eq_iff,
}
use multi_ai_agent.Common.Dict.{Dict, lookup, insert, values}
use multi_ai_agent.Common.Text.{absent}
use multi_ai_agent.Store.{no_pool, DataStore, User}
use multi_ai_agent.Store.Users.{find_user, named, get_user_by_username_or_email}
use multi_ai_agent.Tokens.{
  Crypto, Signing, get_signing_secret, sign, verify_password, generate_token, claims_of,
  verify_token,
}
use multi_ai_agent.Tokens.Laws.{
  CryptoLaws, verify_password-hash_password, verify_token-generate_token,
}
use mathlib.Core.Path.{subst}
use multi_ai_agent.Auth.{
  replied, AuthService, Registration, UserRegisterRequest, TokenResponse, assigned_role,
  token_response, register_user, authenticate_user, token_reply, grant,
}
use multi_ai_agent.Auth.Accounts.{
  new_user, register_user_lem, token_response_lem, bearer, Registered,
}

find_user-insert :
    (ident id : String) (u : User) (d : Dict User)
    → lookup id d ≡ none
    → find_user ident (values d) ≡ none
    → named ident u ≡ true
    → find_user ident (values (insert id u d)) ≡ some u
unfolding lookup insert values find_user
find_user-insert ident id u [] new nobody is_named = rw is_named refl
find_user-insert ident id u ((j, v) ∷ d) new nobody is_named =
    ground (arith, find_user-insert ident id u d)

signs_again :
    (lib : Crypto) (settings : Signing) (now later : ℕ) (user_id username role token : String)
    → generate_token lib settings now user_id username role ≡ some token
    → (again : String) × (generate_token lib settings later user_id username role ≡ some again)
unfolding generate_token
signs_again lib settings now later user_id username role token e =
    elim (Option-cases (get_signing_secret settings)) [
      | inl no_secret ↦ absurd (ground (arith, rw (generate_token, no_secret) at e))
      | inr (secret, found) ↦
          (sign lib secret (claims_of later user_id username role), rw (generate_token, found) refl)
    ]

login_lem :
    (svc : AuthService) (now : ℕ) (ident password : String) (s : DataStore) (u : User)
    (token : String)
    → find_user (svc.lower (svc.strip ident)) (values s.users) ≡ some u
    → verify_password svc.lib password u.password_hash ≡ true
    → generate_token svc.lib svc.signing now u.id u.username u.role ≡ some token
    → authenticate_user svc now no_pool ident password s ≡ (s, replied (bearer token u))
unfolding authenticate_user get_user_by_username_or_email
login_lem svc now ident password s u token found accepted made =
    rw (found, grant) (rw accepted (rw (token_response, made) (unfold token_reply in refl)))

-- Where nobody in memory had the fresh identifier, a login that follows an answered registration is
-- answered for that account and role, the store unchanged, and its token is accepted for seven days. The
-- login may give the name or the address, up to case and blanks, with the password, and no database
-- answers it; the salt has no dollar sign, the name and the address no blanks around them, and base64 is
-- as CryptoLaws has it on the claims.
pub authenticate_user-register_user :
    (svc : AuthService) (env : Registration) (req : UserRegisterRequest)
    (admin_secret : Option String) (is_caller_admin : Bool) (s : DataStore) (r : TokenResponse)
    (ident : String) (now later : ℕ)
    → CryptoLaws svc.lib (claims_of now r.user_id r.username r.role)
    → (register_user svc env req admin_secret is_caller_admin s).1 ≡ replied r
    → lookup env.user_id s.users ≡ none
    → absent "$" env.salt ≡ true
    → (svc.strip req.username ≡ req.username) × (svc.strip req.email ≡ req.email)
    → (svc.lower (svc.strip ident) ≡ svc.lower req.username)
      ⊎ (svc.lower (svc.strip ident) ≡ svc.lower req.email)
    → later ≤ now + 86400 * 7
    → let s' = (register_user svc env req admin_secret is_caller_admin s).0 in
      (token : String) × (authenticate_user svc now no_pool ident req.password s'
        ≡ (s', replied (record r { access_token = token })))
      × (verify_token svc.lib svc.signing later token
          ≡ some (claims_of now r.user_id r.username r.role))
unfolding Registered
authenticate_user-register_user svc env req admin_secret is_caller_admin s r ident now later laws e
      new no_dollar blanks same soon =
    let assigned = assigned_role svc req.role admin_secret is_caller_admin in
    let u = new_user svc env req assigned in
    let (name, email, out, reply) =
      register_user_lem svc env req admin_secret is_caller_admin s r e in
    let (token, made, is_r) = token_response_lem svc env.now u r reply in
    let (again, made_again) =
      signs_again svc.lib svc.signing env.now now u.id u.username u.role token made in
    let nobody : find_user (svc.lower (svc.strip ident)) (values s.users) ≡ none = elim same [
      | inl by_name ↦ rw by_name (rw blanks.0 at name)
      | inr by_email ↦ rw by_email (rw blanks.1 at email)
    ] in
    let is_named : named (svc.lower (svc.strip ident)) u ≡ true = ground (
      arith,
      same,
      eq_iff (svc.lower req.username) (svc.lower (svc.strip ident)),
      eq_iff (svc.lower req.email) (svc.lower (svc.strip ident)),
    ) in
    (
      again,
      rw (out, sym is_r)
          (login_lem svc now ident req.password (record s { users = insert env.user_id u s.users })
            u again
            (find_user-insert (svc.lower (svc.strip ident)) env.user_id u s.users new nobody
              is_named)
            (verify_password-hash_password svc.lib env.salt req.password "" no_dollar) made_again),
      rw (sym is_r) (
          verify_token-generate_token svc.lib svc.signing now later u.id u.username u.role again
            (subst
              (λ (x : TokenResponse).
                CryptoLaws svc.lib (claims_of now x.user_id x.username x.role))
              (sym is_r) laws)
            made_again soon),
    )
