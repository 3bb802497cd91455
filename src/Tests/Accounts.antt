-- ===== src/Tests/Accounts.antt =====
-- Runs of accounts and tokens.
use multi_ai_agent.Common.{
  ◌≤◌, ◌≡◌, ◌⊎◌, inl, refl, String, true, false, none, some, arith, str_eq, truthy, if◌then◌else◌,
}
use Prim.Native.String.{◌++◌, ◌∷◌}
use multi_ai_agent.Common.Dict.{lookup, values}
use multi_ai_agent.Common.Text.{absent, repeat, split_once, strip_end}
use multi_ai_agent.Store.{no_pool, empty_store, or_empty}
use multi_ai_agent.Store.Users.{create_user, get_user_by_username_or_email, find_user}
use multi_ai_agent.Tokens.{
  Claims, Crypto, Signing, claims_of, generate_token, verify_token, padded, sign,
  get_signing_secret,
}
use multi_ai_agent.Tokens.Laws.{CryptoLaws, verify_token_sound}
use multi_ai_agent.Auth.{
  replied, AuthService, Registration, UserRegisterRequest, TokenResponse, assigned_role,
  token_response, register_user, authenticate_user,
}
use multi_ai_agent.Auth.Accounts.{new_user, register_user_role}
use multi_ai_agent.Auth.Login.{authenticate_user-register_user}

abbrev ann_claims : Claims
ann_claims = record { uid = "u1"; usr = "ann"; rol = "admin"; exp = 604900 }

-- A stand-in that knows one set of claims.
abbrev toy : Crypto
toy = record {
  pbkdf2 = λ password salt. password ++ salt;
  hmac = λ secret text. secret ++ text;
  encode = λ c. "ab==";
  decode = λ text. if str_eq text "ab==" then some ann_claims else none;
}

abbrev signing : Signing
signing = record { api_key = "key"; production = true }

toy_laws : CryptoLaws toy (claims_of 100 "u1" "ann" "admin")
unfolding strip_end absent claims_of
toy_laws = record {
  whole_groups = refl;
  little_padding = omega arith;
  no_dot = refl;
  decode-encode = refl;
}

verify_token_sound_example :
    (secret : String) × (payload : String) × (get_signing_secret signing ≡ some secret)
    × ("ab.keyab" ≡ payload ++ ("." ∷ toy.hmac secret payload))
    × (toy.decode (padded payload) ≡ some ann_claims)
    × (200 ≤ ann_claims.exp)
unfolding verify_token split_once padded repeat get_signing_secret
verify_token_sound_example = verify_token_sound toy signing 200 "ab.keyab" ann_claims refl

abbrev plain : String → String
plain x = if str_eq x " Ann" then "ann" else x

abbrev svc : AuthService
svc = record {
  lib = toy;
  signing = signing;
  admin_registration_secret = "s3";
  lower = plain;
  strip = plain;
}

abbrev env : Registration
env = record {
  now = 90;
  user_id = "u1";
  salt = "f00";
  name_read = no_pool;
  email_read = no_pool;
  write = no_pool;
}

abbrev ann : UserRegisterRequest
ann = record { username = "ann"; email = "ann@x.io"; password = "pw"; role = "admin" }

abbrev welcome : TokenResponse
welcome = record { access_token = "ab.keyab"; user_id = "u1"; username = "ann"; role = "admin" }

registered : (register_user svc env ann (some "s3") false empty_store).1 ≡ replied welcome
unfolding register_user get_user_by_username_or_email find_user values empty_store create_user
    token_response generate_token get_signing_secret sign strip_end assigned_role
registered = refl

register_user_role_example :
    let s' = (register_user svc env ann (some "s3") false empty_store).0 in
    (lookup "u1" s'.users ≡ some (new_user svc env ann "admin"))
    × (◌⊎◌ (◌≡◌ {A = String} "admin" "user") (
        (◌≡◌ {A = String} "admin" "admin")
        × ((false ≡ true) ⊎ ((truthy "s3" ≡ true) × (plain (or_empty (some "s3")) ≡ "s3")))))
register_user_role_example =
    register_user_role svc env ann (some "s3") false empty_store welcome registered

authenticate_user-register_user_example :
    let s' = (register_user svc env ann (some "s3") false empty_store).0 in
    (token : String) × (authenticate_user svc 100 no_pool " Ann" "pw" s'
      ≡ (s', replied (record welcome { access_token = token })))
    × (verify_token toy signing 200 token ≡ some (claims_of 100 "u1" "ann" "admin"))
unfolding empty_store lookup absent
authenticate_user-register_user_example =
    authenticate_user-register_user svc env ann (some "s3") false empty_store welcome " Ann" 100 200
      toy_laws registered refl refl (refl, refl) (inl refl) (omega arith)
