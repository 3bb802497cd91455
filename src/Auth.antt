-- ===== src/Auth.antt =====
-- tripmate/services/auth_service.py: registration, login, password resets and profiles over the users
-- of the store. A reply is an answer or the exception raised. Requests come as the schemas made
-- them: name and address of a registration are already stripped and in lower case.
pub mod Accounts
pub mod Login
use multi_ai_agent.Common.{
  ℕ, String, Bool, true, false, not, ◌&&◌, Option, none, some, str_eq, truthy, if◌then◌else◌,
}
use multi_ai_agent.Store.{Attempt, DataStore, User, ResetToken, or_empty}
use multi_ai_agent.Store.Users.{create_user, get_user_by_id, get_user_by_username_or_email}
use multi_ai_agent.Store.Resets.{create_password_reset_token, verify_and_consume_reset_token}
use multi_ai_agent.Tokens.{Crypto, Signing, hash_password, verify_password, generate_token}

-- The ValueErrors, the failed write of the store, and the RuntimeError of a missing signing key.
pub data AuthError : Type 0 where
  username_taken email_taken not_stored no_signing_key bad_credentials bad_reset_token : AuthError

pub data Reply {ℓ} (A : Type ℓ) : Type ℓ where
  replied : A → Reply A
  raised : AuthError → Reply A

pub record UserRegisterRequest : Type 0 where
  pub username : String
  pub email : String
  pub password : String
  pub role : String

-- The `token_type` is always "bearer".
pub record TokenResponse : Type 0 where
  pub access_token : String
  pub user_id : String
  pub username : String
  pub role : String

pub record UserProfile : Type 0 where
  pub id : String
  pub username : String
  pub email : String
  pub role : String
  pub created_at : ℕ

-- The message is always the same; `reset_token` is the entry that a production setup leaves out.
pub record ResetReply : Type 0 where
  pub reset_token : Option (Option String)

-- The settings, with ADMIN_REGISTRATION_SECRET, and Python's `str.lower` and `str.strip`.
pub record AuthService : Type 0 where
  pub lib : Crypto
  pub signing : Signing
  pub admin_registration_secret : String
  pub lower : String → String
  pub strip : String → String

-- What one registration takes from outside: the time, the fresh identifier and salt, and what the
-- database answers to the two queries and to the write.
pub record Registration : Type 0 where
  pub now : ℕ
  pub user_id : String
  pub salt : String
  pub name_read : Attempt (Option User)
  pub email_read : Attempt (Option User)
  pub write : Attempt (Unit {0})

-- An absent or empty secret, on either side, assigns nothing.
unfoldable pub assigned_role : AuthService → String → Option String → Bool → String
assigned_role svc role admin_secret is_caller_admin =
    if str_eq role "admin"
      && (if is_caller_admin
          then true
          else truthy svc.admin_registration_secret
            && (truthy (or_empty admin_secret)
                && str_eq (svc.strip (or_empty admin_secret)) svc.admin_registration_secret))
    then "admin"
    else "user"

token_reply : Option String → User → Reply TokenResponse
token_reply none user = raised no_signing_key
token_reply (some token) user =
    replied (record {
      access_token = token;
      user_id = user.id;
      username = user.username;
      role = user.role;
    })

unfoldable pub token_response : AuthService → ℕ → User → Reply TokenResponse
unfolding token_reply
token_response svc now user =
    token_reply (generate_token svc.lib svc.signing now user.id user.username user.role) user

unfoldable pub finish_registration :
    AuthService → ℕ → DataStore × Option User → DataStore × Reply TokenResponse
unfolding token_response
finish_registration svc now (s, none) = (s, raised not_stored)
finish_registration svc now (s, some user) = (s, token_response svc now user)

store_user :
    AuthService
    → Registration
    → UserRegisterRequest
    → Option String
    → Bool
    → DataStore × Option User
    → DataStore × Reply TokenResponse
unfolding finish_registration
store_user svc env req admin_secret is_caller_admin (s, some u) = (s, raised email_taken)
store_user svc env req admin_secret is_caller_admin (s, none) = finish_registration svc env.now (
    create_user svc.lower svc.strip env.now env.user_id env.write req.username req.email
      (hash_password svc.lib env.salt req.password "")
      (assigned_role svc req.role admin_secret is_caller_admin) s)

check_email :
    AuthService
    → Registration
    → UserRegisterRequest
    → Option String
    → Bool
    → DataStore × Option User
    → DataStore × Reply TokenResponse
unfolding store_user
check_email svc env req admin_secret is_caller_admin (s, some u) = (s, raised username_taken)
check_email svc env req admin_secret is_caller_admin (s, none) =
    store_user svc env req admin_secret is_caller_admin
      (get_user_by_username_or_email svc.lower svc.strip env.email_read req.email s)

unfoldable pub register_user :
    AuthService
    → Registration
    → UserRegisterRequest
    → Option String
    → Bool
    → DataStore
    → DataStore × Reply TokenResponse
unfolding check_email
register_user svc env req admin_secret is_caller_admin s =
    check_email svc env req admin_secret is_caller_admin
      (get_user_by_username_or_email svc.lower svc.strip env.name_read req.username s)

grant : AuthService → ℕ → String → DataStore × Option User → DataStore × Reply TokenResponse
unfolding token_response
grant svc now password (s, none) = (s, raised bad_credentials)
grant svc now password (s, some user) =
    if verify_password svc.lib password user.password_hash
    then (s, token_response svc now user)
    else (s, raised bad_credentials)

unfoldable pub authenticate_user :
    AuthService
    → ℕ
    → Attempt (Option User)
    → String
    → String
    → DataStore
    → DataStore × Reply TokenResponse
unfolding grant
authenticate_user svc now read username_or_email password s =
    grant svc now password
      (get_user_by_username_or_email svc.lower svc.strip read username_or_email s)

unfoldable pub request_password_reset :
    AuthService → ℕ → String → Attempt (Option User) → String → DataStore → DataStore × ResetReply
request_password_reset svc now token read email s =
    let (s', made) = create_password_reset_token svc.lower svc.strip now token read email s in
    (s', record { reset_token = if svc.signing.production then none else some made })

unfoldable pub reset_password :
    AuthService
    → ℕ
    → String
    → Attempt (Option ResetToken)
    → String
    → String
    → DataStore
    → DataStore × Reply Bool
reset_password svc now salt attempt reset_token new_password s =
    let hashed_pw = hash_password svc.lib salt new_password "" in
    let (s', success) = verify_and_consume_reset_token attempt now reset_token hashed_pw s in
    (s', if success then replied true else raised bad_reset_token)

unfoldable pub get_profile :
    Attempt (Option User) → String → DataStore → DataStore × Option UserProfile
get_profile read user_id s =
    let (s', found) = get_user_by_id read user_id s in
    (
      s',
      elim found [
        | none ↦ none
        | some user ↦ some (record {
          id = user.id;
          username = user.username;
          email = user.email;
          role = user.role;
          created_at = user.created_at;
        })
      ],
    )
