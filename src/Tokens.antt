-- ===== src/Tokens.antt =====
-- tripmate/database/store.py: password hashes and signed bearer tokens. PBKDF2, HMAC and base64 over
-- JSON are those of Python's library: parameters, gathered in `Crypto`. Times are whole seconds.
pub mod Laws
use Prim.Native.Char.{Char}
use Prim.Native.Nat.{◌%◌}
use Prim.Native.String.{[], ◌∷◌, ◌++◌, count}
use multi_ai_agent.Common.{
  ℕ, ◌+◌, ◌-◌, ◌*◌, String, Bool, true, false, Option, none, some, str_eq, truthy, ltb,
  if◌then◌else◌,
}
use multi_ai_agent.Common.Text.{split_once, repeat, strip_end}

-- The claims of a token; `exp` is when it expires.
pub record Claims : Type 0 where
  pub uid : String
  pub usr : String
  pub rol : String
  pub exp : ℕ

-- `pbkdf2_hmac("sha256", password, salt, 100000).hex()`, `hmac.new(secret, text).hexdigest()`,
-- `urlsafe_b64encode(json.dumps(claims))`, and the claims that a padded text decodes to, with `none`
-- for an exception.
pub record Crypto : Type 0 where
  pub pbkdf2 : String → String → String
  pub hmac : String → String → String
  pub encode : Claims → String
  pub decode : String → Option Claims

-- The settings API_KEY and `APP_ENV == "production"`.
pub record Signing : Type 0 where
  pub api_key : String
  pub production : Bool

abbrev dollar : Char
dollar = "$"

abbrev dot : Char
dot = "."

abbrev equals : Char
equals = "="

-- Without a salt, or with an empty one, a fresh one is taken.
unfoldable pub hash_password : Crypto → String → String → String → String
hash_password lib fresh password salt =
    let used = if truthy salt then salt else fresh in used ++ ("$" ∷ lib.pbkdf2 password used)

-- A stored text with no `$` raises inside the `try`.
unfoldable pub verify_password : Crypto → String → String → Bool
verify_password lib password stored = elim (split_once "$" stored) [
  | none ↦ false
  | some (salt, key_hex) ↦ str_eq (lib.pbkdf2 password salt) key_hex
]

-- `none` is the RuntimeError of a production setup without a key.
unfoldable pub get_signing_secret : Signing → Option String
get_signing_secret settings =
    if truthy settings.api_key
    then some settings.api_key
    else if settings.production
    then none
    else some "tripmate_platform_secret_key_2026"

-- Seven days.
unfoldable pub claims_of : ℕ → String → String → String → Claims
claims_of now user_id username role = record {
  uid = user_id;
  usr = username;
  rol = role;
  exp = now + 86400 * 7;
}

unfoldable pub sign : Crypto → String → Claims → String
sign lib secret claims =
    let payload_b64 = strip_end "=" (lib.encode claims) in
    payload_b64 ++ ("." ∷ lib.hmac secret payload_b64)

unfoldable pub generate_token : Crypto → Signing → ℕ → String → String → String → Option String
unfolding get_signing_secret
generate_token lib settings now user_id username role = elim (get_signing_secret settings) [
  | none ↦ none
  | some secret ↦ some (sign lib secret (claims_of now user_id username role))
]

unfoldable pub padded : String → String
padded s = s ++ repeat ((4 - count s % 4) % 4) "="

-- The claims unless they have expired.
unexpired : ℕ → Option Claims → Option Claims
unexpired now none = none
unexpired now (some claims) = if ltb claims.exp now then none else some claims

checked : Crypto → ℕ → String → Option (String × String) → Option Claims
unfolding unexpired
checked lib now secret none = none
checked lib now secret (some (payload_b64, sig)) =
    if str_eq sig (lib.hmac secret payload_b64)
    then unexpired now (lib.decode (padded payload_b64))
    else none

unfoldable pub verify_token : Crypto → Signing → ℕ → String → Option Claims
unfolding get_signing_secret checked
verify_token lib settings now token = elim (get_signing_secret settings) [
  | none ↦ none
  | some secret ↦ checked lib now secret (split_once "." token)
]
