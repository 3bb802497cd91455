-- ===== src/Store/Resets.antt =====
-- Password reset tokens of tripmate/database/store.py.
pub mod Once
use text.Mathlib.TextPositions.{eq_refl}
use multi_ai_agent.Common.{
  ℕ, ◌+◌, ◌≤◌, String, Bool, true, false, ◌||◌, Option, none, some, ◌≡◌, refl, inl, inr, arith, ltb,
  str_eq, if◌then◌else◌, Bool-cases, Option-cases, eq_iff,
}
use multi_ai_agent.Common.Dict.{lookup, insert, lookup-insert}
use multi_ai_agent.Store.{Attempt, no_pool, failed, answered, DataStore, User, ResetToken}
use multi_ai_agent.Store.Users.{cache_user, get_user_by_username_or_email}

-- Fifteen minutes, in seconds; the write to the database may fail.
unfoldable pub create_password_reset_token :
    (lower strip : String → String)
    → ℕ
    → String
    → Attempt (Option User)
    → String
    → DataStore
    → DataStore × Option String
create_password_reset_token lower strip now token read email store =
    let (s, found) = get_user_by_username_or_email lower strip read email store in
    elim found [
      | none ↦ (s, none)
      | some user ↦ (
        record s {
          reset_tokens =
              insert token
                (record { token = token; user_id = user.id; expires_at = now + 900; used = false })
                s.reset_tokens;
        },
        some token,
      )
    ]

-- `used or expires_at < time.time()`
unfoldable pub is_spent : ℕ → ResetToken → Bool
is_spent now t = t.used || ltb t.expires_at now

set_password : String → String → DataStore → DataStore
set_password user_id hash s = elim (lookup user_id s.users) [
  | none ↦ s
  | some u ↦ record s { users = insert user_id (record u { password_hash = hash }) s.users }
]

mark_used : String → DataStore → DataStore
mark_used token s = elim (lookup token s.reset_tokens) [
  | none ↦ s
  | some t ↦ record s { reset_tokens = insert token (record t { used = true }) s.reset_tokens }
]

redeem : ℕ → String → String → ResetToken → Option User → DataStore → DataStore × Bool
redeem now token hash t none s = (s, false)
redeem now token hash t (some u) s = if is_spent now t then (s, false) else (
  record s {
    users = insert t.user_id (record u { password_hash = hash }) s.users;
    reset_tokens = insert token (record t { used = true }) s.reset_tokens;
  },
  true,
)

-- The half that goes by memory.
unfoldable pub consume_in_memory : ℕ → String → String → DataStore → DataStore × Bool
unfolding redeem is_spent
consume_in_memory now token hash s = elim (lookup token s.reset_tokens) [
  | none ↦ (s, false)
  | some t ↦ redeem now token hash t (lookup t.user_id s.users) s
]

-- The database answers with the token's row, or that there is none; the two updates then succeed,
-- or the whole attempt has failed.
unfoldable pub verify_and_consume_reset_token :
    Attempt (Option ResetToken) → ℕ → String → String → DataStore → DataStore × Bool
unfolding set_password mark_used is_spent consume_in_memory
verify_and_consume_reset_token attempt now token hash s = elim attempt [
  | answered row ↦ elim row [
    | none ↦ (s, false)
    | some t ↦
        if is_spent now t
        then (s, false)
        else (mark_used token (set_password t.user_id hash s), true)
  ]
  | _ ↦ consume_in_memory now token hash s
]
