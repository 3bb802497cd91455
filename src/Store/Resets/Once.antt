-- ===== src/Store/Resets/Once.antt =====
-- A password reset token of tripmate/database/store.py works once.
use text.Mathlib.TextPositions.{eq_refl}
use multi_ai_agent.Common.{
  ℕ, ◌≤◌, String, Bool, true, false, Option, none, some, ◌≡◌, refl, inl, inr, arith, str_eq,
  Bool-cases, Option-cases, eq_iff,
}
use multi_ai_agent.Common.Dict.{lookup, insert, lookup-insert}
use multi_ai_agent.Store.{Attempt, no_pool, failed, answered, DataStore, User, ResetToken}
use multi_ai_agent.Store.Users.{cache_user, get_user_by_username_or_email}
use multi_ai_agent.Store.Resets.{
  create_password_reset_token, is_spent, set_password, mark_used, redeem, consume_in_memory,
  verify_and_consume_reset_token,
}

used_refused :
    (later : ℕ) (token again : String) (t : ResetToken) (s : DataStore)
    → lookup token s.reset_tokens ≡ some t
    → t.used ≡ true
    → consume_in_memory later token again s ≡ (s, false)
unfolding consume_in_memory
used_refused later token again t s e used = elim (Option-cases (lookup t.user_id s.users)) [
  | inl gone ↦ rw (e, consume_in_memory) (rw (gone, redeem))
  | inr there ↦ rw (e, consume_in_memory) (rw (there.1, redeem) (rw used))
]

-- What an acceptance by memory rests on and does.
accepted_lem :
    (now : ℕ) (token hash : String) (s : DataStore)
    → (consume_in_memory now token hash s).1 ≡ true
    → (t : ResetToken) × (u : User) × (lookup token s.reset_tokens ≡ some t)
      × (is_spent now t ≡ false)
      × ((consume_in_memory now token hash s).0 ≡ record s {
        users = insert t.user_id (record u { password_hash = hash }) s.users;
        reset_tokens = insert token (record t { used = true }) s.reset_tokens;
      })
unfolding consume_in_memory redeem
accepted_lem now token hash s ok = elim (Option-cases (lookup token s.reset_tokens)) [
  | inl none_there ↦ absurd (ground (arith, none_there, ok))
  | inr (t, there) ↦ elim (Option-cases (lookup t.user_id s.users)) [
    | inl gone ↦ absurd (ground (arith, there, gone, ok))
    | inr (u, found) ↦ elim (Bool-cases (is_spent now t)) [
      | inl spent ↦ absurd (ground (arith, there, found, spent, ok))
      | inr fresh ↦
          (t, u, there, fresh, rw (there, consume_in_memory) (rw (found, redeem) (rw fresh refl)))
    ]
  ]
]

-- What can happen to the store between two uses of a token: other attempts, answered by the database
-- or by memory, for any token; new tokens, which are fresh; and everything that leaves the tokens alone.
pub data Step : DataStore → DataStore → Type 0 where
  attempts :
      (attempt : Attempt (Option ResetToken)) (now : ℕ) (token hash : String) (s : DataStore)
      → Step s (verify_and_consume_reset_token attempt now token hash s).0
  issues :
      (lower strip : String → String) (now : ℕ) (token : String) (read : Attempt (Option User))
      (email : String) (s : DataStore)
      → lookup token s.reset_tokens ≡ none
      → Step s (create_password_reset_token lower strip now token read email s).0
  others : (s s' : DataStore) → s'.reset_tokens ≡ s.reset_tokens → Step s s'

pub data Steps : DataStore → DataStore → Type 0 where
  halt : {s : DataStore} → Steps s s
  then_ : {s t u : DataStore} → Step s t → Steps t u → Steps s u

abbrev used_token : Option ResetToken → Bool
used_token none = false
used_token (some t) = t.used

abbrev IsUsed : String → DataStore → Type 0
IsUsed token s = used_token (lookup token s.reset_tokens) ≡ true

-- A token is overwritten by one that is used.
insert-IsUsed :
    (token k : String) (t : ResetToken) (s : DataStore)
    → t.used ≡ true
    → IsUsed k s
    → used_token (lookup k (insert token t s.reset_tokens)) ≡ true
insert-IsUsed token k t s u h = ground (arith, u, h, lookup-insert token k t s.reset_tokens)

mark_used-IsUsed : (token k : String) (s : DataStore) → IsUsed k s → IsUsed k (mark_used token s)
unfolding mark_used
mark_used-IsUsed token k s h = elim (Option-cases (lookup token s.reset_tokens)) [
  | inl gone ↦ rw (gone, mark_used) h
  | inr (t, there) ↦
      rw (there, mark_used) (insert-IsUsed token k (record t { used = true }) s refl h)
]

same_tokens :
    (user hash : String) (s : DataStore) → (set_password user hash s).reset_tokens ≡ s.reset_tokens
unfolding set_password
same_tokens user hash s = ground arith

redeem-IsUsed :
    (now : ℕ) (token hash k : String) (t : ResetToken) (u : Option User) (s : DataStore)
    → IsUsed k s
    → IsUsed k (redeem now token hash t u s).0
unfolding redeem
redeem-IsUsed now token hash k t none s h = h
redeem-IsUsed now token hash k t (some u) s h = elim (Bool-cases (is_spent now t)) [
  | inl spent ↦ rw spent h
  | inr fresh ↦ rw fresh (insert-IsUsed token k (record t { used = true }) s refl h)
]

memory-IsUsed :
    (now : ℕ) (token hash k : String) (s : DataStore)
    → IsUsed k s
    → IsUsed k (consume_in_memory now token hash s).0
unfolding consume_in_memory
memory-IsUsed now token hash k s h = elim (Option-cases (lookup token s.reset_tokens)) [
  | inl gone ↦ rw (gone, consume_in_memory) h
  | inr (t, there) ↦
      rw (there, consume_in_memory)
        (redeem-IsUsed now token hash k t (lookup t.user_id s.users) s h)
]

answered-IsUsed :
    (now : ℕ) (token hash k : String) (t : ResetToken) (s : DataStore)
    → IsUsed k s
    → IsUsed k (verify_and_consume_reset_token (answered (some t)) now token hash s).0
unfolding verify_and_consume_reset_token
answered-IsUsed now token hash k t s h = elim (Bool-cases (is_spent now t)) [
  | inl spent ↦ rw spent h
  | inr fresh ↦ rw fresh (
      mark_used-IsUsed token k (set_password t.user_id hash s)
        (rw (same_tokens t.user_id hash s) h))
]

found_same_tokens :
    (lower strip : String → String) (read : Attempt (Option User)) (email : String) (s : DataStore)
    → (get_user_by_username_or_email lower strip read email s).0.reset_tokens ≡ s.reset_tokens
unfolding get_user_by_username_or_email cache_user
found_same_tokens lower strip no_pool email s = refl
found_same_tokens lower strip failed email s = refl
found_same_tokens lower strip (answered none) email s = refl
found_same_tokens lower strip (answered (some u)) email s = refl

-- A fresh token is not one that is used.
fresh_other :
    (token k : String) (s : DataStore)
    → lookup token s.reset_tokens ≡ none
    → IsUsed k s
    → str_eq token k ≡ false
fresh_other token k s fresh h = ground (arith, eq_iff token k, fresh, h)

issue-IsUsed :
    (lower strip : String → String) (now : ℕ) (token k : String) (read : Attempt (Option User))
    (email : String) (s : DataStore)
    → lookup token s.reset_tokens ≡ none
    → IsUsed k s
    → IsUsed k (create_password_reset_token lower strip now token read email s).0
unfolding create_password_reset_token
issue-IsUsed lower strip now token k read email s fresh h =
    let same = found_same_tokens lower strip read email s in
    elim (Option-cases (get_user_by_username_or_email lower strip read email s).1) [
      | inl nobody ↦ rw (nobody, create_password_reset_token) (rw same h)
      | inr (u, found) ↦
          rw (found, create_password_reset_token)
            (rw same (simp (lookup-insert, fresh_other token k s fresh h, h)))
    ]

Step-IsUsed : (k : String) {s t : DataStore} → Step s t → IsUsed k s → IsUsed k t
unfolding verify_and_consume_reset_token
Step-IsUsed k (attempts no_pool now token hash s) h = memory-IsUsed now token hash k s h
Step-IsUsed k (attempts failed now token hash s) h = memory-IsUsed now token hash k s h
Step-IsUsed k (attempts (answered none) now token hash s) h = h
Step-IsUsed k (attempts (answered (some t)) now token hash s) h =
    answered-IsUsed now token hash k t s h
Step-IsUsed k (issues lower strip now token read email s fresh) h =
    issue-IsUsed lower strip now token k read email s fresh h
Step-IsUsed k (others s s' e) h = rw e h

Steps-IsUsed : (k : String) {s t : DataStore} → Steps s t → IsUsed k s → IsUsed k t
Steps-IsUsed k halt h = h
Steps-IsUsed k (then_ x r) h = Steps-IsUsed k r (Step-IsUsed k x h)

refused_used :
    (later : ℕ) (token again : String) (s : DataStore)
    → IsUsed token s
    → consume_in_memory later token again s ≡ (s, false)
refused_used later token again s h = elim (Option-cases (lookup token s.reset_tokens)) [
  | inl gone ↦ absurd (ground (arith, rw gone at h))
  | inr (t, there) ↦ used_refused later token again t s there (rw there at h)
]

-- By memory a token works once: where it was accepted, the password of its user is the new one, and
-- by memory the same token is refused ever after, at any time and for any password, whatever was done
-- to the store in between: other attempts, new tokens that are fresh, and what leaves the tokens alone.
pub reset_token_once :
    (now later : ℕ) (token hash again : String) (s r : DataStore)
    → (verify_and_consume_reset_token no_pool now token hash s).1 ≡ true
    → Steps (verify_and_consume_reset_token no_pool now token hash s).0 r
    → let s' = (verify_and_consume_reset_token no_pool now token hash s).0 in
      (verify_and_consume_reset_token no_pool later token again r ≡ (r, false))
      × ((t : ResetToken) × (u : User) × (lookup token s.reset_tokens ≡ some t)
          × (now ≤ t.expires_at)
          × (lookup t.user_id s'.users ≡ some (record u { password_hash = hash })))
unfolding verify_and_consume_reset_token
reset_token_once now later token hash again s r ok between =
    let (t, u, found, fresh, result) = accepted_lem now token hash s ok in
    let used : IsUsed token (consume_in_memory now token hash s).0 =
      rw result (simp (lookup-insert, eq_refl)) in
    (
      refused_used later token again r (Steps-IsUsed token between used),
      (t, u, found, ground (arith, fresh), rw result (simp (lookup-insert, eq_refl))),
    )
