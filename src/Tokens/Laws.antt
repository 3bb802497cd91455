-- ===== src/Tokens/Laws.antt =====
-- What a password hash and a bearer token of tripmate/database/store.py can be relied on for.
use Prim.Native.Nat.{◌%◌}
use Prim.Native.String.{◌∷◌, ◌++◌, count}
use multi_ai_agent.Common.{
  ℕ, ◌+◌, ◌-◌, ◌*◌, ◌≤◌, ◌<◌, String, true, Option, none, some, ◌≡◌, refl, sym, ◌∙◌, ap, inl, inr,
  arith, ltb, str_eq, truthy, if◌then◌else◌, Bool-cases, Option-cases, eq_iff,
}
use multi_ai_agent.Common.Text.{
  absent, strip_end, split_once, split_once-append, split_once_sound, strip_end-repeat,
  length-repeat,
}
use multi_ai_agent.Tokens.{
  Claims, Crypto, Signing, hash_password, verify_password, get_signing_secret, claims_of, sign,
  generate_token, padded, unexpired, checked, verify_token,
}
use mathlib.Core.Option.{some-injective}
use text.Mathlib.TextPositions.{eq_refl}
use text.Mathlib.TextLemmas.{length-append}

-- base64 of these claims: whole groups of four characters, of which fewer than four are padding,
-- without a dot, and decoding takes it back.
pub record CryptoLaws (lib : Crypto) (c : Claims) : Type 0 where
  pub whole_groups : count (lib.encode c) % 4 ≡ 0
  pub little_padding : count (lib.encode c) < count (strip_end "=" (lib.encode c)) + 4
  pub no_dot : absent "." (strip_end "=" (lib.encode c)) ≡ true
  pub decode-encode : lib.decode (lib.encode c) ≡ some c

padding_amount : (n r k : ℕ) → n ≡ r + k → n % 4 ≡ 0 → n < r + 4 → (4 - r % 4) % 4 ≡ k
padding_amount n r k e whole little = omega arith

padded-strip_end :
    (s : String)
    → count s % 4 ≡ 0
    → count s < count (strip_end "=" s) + 4
    → padded (strip_end "=" s) ≡ s
unfolding padded
padded-strip_end s whole little =
    let (k, e) = strip_end-repeat "=" s in
    let n : count s ≡ count (strip_end "=" s) + k =
      ap count e ∙ (rw (length-append, length-repeat) refl) in
    rw (padding_amount (count s) (count (strip_end "=" s)) k n whole little, sym e) refl

-- A password is accepted against its own hash, whatever the salt, unless the salt has a dollar sign.
pub verify_password-hash_password :
    (lib : Crypto) (fresh password salt : String)
    → absent "$" (if truthy salt then salt else fresh) ≡ true
    → verify_password lib password (hash_password lib fresh password salt) ≡ true
unfolding verify_password hash_password
verify_password-hash_password lib fresh password salt h =
    let used = if truthy salt then salt else fresh in
    rw (verify_password, split_once-append "$" used (lib.pbkdf2 password used) h)
      (eq_refl (lib.pbkdf2 password used))

checked-sign :
    (lib : Crypto) (now : ℕ) (secret : String) (claims : Claims)
    → CryptoLaws lib claims
    → now ≤ claims.exp
    → checked lib now secret (split_once "." (sign lib secret claims)) ≡ some claims
unfolding sign checked unexpired
checked-sign lib now secret claims laws soon =
    let payload = strip_end "=" (lib.encode claims) in
    rw (split_once-append "." payload (lib.hmac secret payload) laws.no_dot) (
      rw (eq_refl (lib.hmac secret payload)) (
        rw (padded-strip_end (lib.encode claims) laws.whole_groups laws.little_padding)
          (rw laws.decode-encode (ground (arith, soon)))))

-- A token that was generated is accepted for seven days, with the claims it was generated for, where
-- base64 is as CryptoLaws has it on them.
pub verify_token-generate_token :
    (lib : Crypto) (settings : Signing) (now later : ℕ) (user_id username role token : String)
    → CryptoLaws lib (claims_of now user_id username role)
    → generate_token lib settings now user_id username role ≡ some token
    → later ≤ now + 86400 * 7
    → verify_token lib settings later token ≡ some (claims_of now user_id username role)
unfolding verify_token generate_token
verify_token-generate_token lib settings now later user_id username role token laws e soon =
    elim (Option-cases (get_signing_secret settings)) [
      | inl no_secret ↦ absurd (ground (arith, rw (generate_token, no_secret) at e))
      | inr (secret, found) ↦
          let claims = claims_of now user_id username role in
          let is_signed : sign lib secret claims ≡ token =
            some-injective (sign lib secret claims) token (rw (generate_token, found) at e) in
          rw (verify_token, found)
            (rw (sym is_signed)
              (checked-sign lib later secret claims laws (unfold claims_of in soon)))
    ]

unexpired_sound :
    (now : ℕ) (o : Option Claims) (claims : Claims)
    → unexpired now o ≡ some claims
    → (o ≡ some claims) × (now ≤ claims.exp)
unfolding unexpired
unexpired_sound now none claims e = absurd (ground (arith, e))
unexpired_sound now (some c) claims e = elim (Bool-cases (ltb c.exp now)) [
  | inl late ↦ absurd (ground (arith, rw late at e))
  | inr soon ↦
      let same : c ≡ claims = some-injective c claims (rw soon at e) in
      (ap some same, rw (sym same) (ground (arith, soon)))
]

checked_sound :
    (lib : Crypto) (now : ℕ) (secret payload sig : String) (claims : Claims)
    → checked lib now secret (some (payload, sig)) ≡ some claims
    → (sig ≡ lib.hmac secret payload)
      × (lib.decode (padded payload) ≡ some claims)
      × (now ≤ claims.exp)
unfolding checked
checked_sound lib now secret payload sig claims e =
    elim (Bool-cases (str_eq sig (lib.hmac secret payload))) [
      | inl y ↦
          let (decoded, soon) =
            unexpired_sound now (lib.decode (padded payload)) claims (rw y at e) in
          ((eq_iff sig (lib.hmac secret payload)).0 y, decoded, soon)
      | inr n ↦ absurd (ground (arith, rw n at e))
    ]

-- A token that is accepted is a payload and its signature by the secret in use, joined by a dot: the
-- payload decodes to the claims that are answered, and these have not expired.
pub verify_token_sound :
    (lib : Crypto) (settings : Signing) (now : ℕ) (token : String) (claims : Claims)
    → verify_token lib settings now token ≡ some claims
    → (secret : String) × (payload : String) × (get_signing_secret settings ≡ some secret)
      × (token ≡ payload ++ ("." ∷ lib.hmac secret payload))
      × (lib.decode (padded payload) ≡ some claims)
      × (now ≤ claims.exp)
unfolding verify_token
verify_token_sound lib settings now token claims e =
    elim (Option-cases (get_signing_secret settings)) [
      | inl no_secret ↦ absurd (ground (arith, rw (verify_token, no_secret) at e))
      | inr (secret, found) ↦ elim (Option-cases (split_once "." token)) [
        | inl whole ↦
            absurd (ground (arith, rw (checked, whole) at (rw (verify_token, found) at e)))
        | inr ((payload, sig), parts) ↦
            let (signed, decoded, soon) =
              checked_sound lib now secret payload sig claims
                (rw parts at (rw (verify_token, found) at e)) in
            (
              secret,
              payload,
              found,
              split_once_sound "." token payload sig parts ∙ ap (λ x. payload ++ ("." ∷ x)) signed,
              decoded,
              soon,
            )
      ]
    ]
