-- ===== src/Access/Rules.antt =====
-- What tripmate/api/dependencies.py promises: who passes with a key, who counts as an administrator,
-- and who may touch a thread.
use text.Mathlib.TextPositions.{eq_refl}
use mathlib.Core.Path.{subst}
use multi_ai_agent.Common.{
  ℕ, String, true, false, ◌&&◌, Option, some, ◌≡◌, refl, ◌⊎◌, inl, inr, arith, str_eq, eq_iff,
  truthy, if◌then◌else◌, Bool-cases, is_some,
}
use multi_ai_agent.Store.{DataStore, User, no_pool}
use multi_ai_agent.Store.Threads.{register_thread_owner, get-register_thread_owner}
use multi_ai_agent.Access.{
  Reply, refused, granted, Settings, Claims, provided_key, verify_api_key, Env, Reads, given_token,
  is_ascii, compare_digest, is_master_key, get_current_user, admit_admin, require_admin, is_denied,
  validate_thread_ownership,
}

-- Where authentication is enforced, a key that passes is the one given, is not empty, and is the
-- master key or a token that verifies; every other call is answered 401, or 500 where there is a
-- master key to compare the given key with and one of the two is not ASCII.
pub verify_api_key_enforced :
    (s : Settings) (verify_token : String → Option Claims) (x_api_key bearer : Option String)
    → s.auth_required ≡ true
    → let key = provided_key x_api_key bearer in
      (verify_api_key s verify_token x_api_key bearer ≡ refused 401)
      ⊎ ((verify_api_key s verify_token x_api_key bearer ≡ refused 500)
          × (truthy s.api_key ≡ true)
          × ((is_ascii key && is_ascii s.api_key) ≡ false))
      ⊎ ((verify_api_key s verify_token x_api_key bearer ≡ granted key)
          × (truthy key ≡ true)
          × ((key ≡ s.api_key) ⊎ (is_some (verify_token key) ≡ true)))
unfolding verify_api_key is_master_key compare_digest
verify_api_key_enforced s verify_token x_api_key bearer enforced =
    ground (arith, enforced, eq_iff (provided_key x_api_key bearer) s.api_key)

admit_admin_lem :
    (r : DataStore × Reply User) (u : User)
    → (admit_admin r).1 ≡ granted u
    → (r.1 ≡ granted u) × (u.role ≡ "admin")
unfolding admit_admin
admit_admin_lem (s, refused code) u e = absurd (ground (arith, e))
admit_admin_lem (s, granted w) u e = elim (Bool-cases (str_eq w.role "admin")) [
  | inl admin ↦
      let same : granted w ≡ granted u =
        subst (λ b. (if b then granted w else refused 403) ≡ granted u) admin e in
      (same, ground (arith, same, (eq_iff w.role "admin").0 admin))
  | inr other ↦ absurd (ground (arith, other, e))
]

-- A caller who passes `require_admin` was resolved to that very user, and the user's role is `admin`.
pub require_admin_sound :
    (env : Env) (reads : Reads) (x_api_key bearer : Option String) (s : DataStore) (u : User)
    → (require_admin env reads x_api_key bearer s).1 ≡ granted u
    → ((get_current_user env reads x_api_key bearer s).1 ≡ granted u) × (u.role ≡ "admin")
unfolding require_admin
require_admin_sound env reads x_api_key bearer s u e =
    admit_admin_lem (get_current_user env reads x_api_key bearer s) u e

-- Where authentication is enforced, a request that carries no token is answered 401 and changes
-- nothing in the store.
pub no_token_refused :
    (env : Env) (reads : Reads) (x_api_key bearer : Option String) (s : DataStore)
    → env.settings.auth_required ≡ true
    → given_token x_api_key bearer ≡ ""
    → get_current_user env reads x_api_key bearer s ≡ (s, refused 401)
unfolding get_current_user
no_token_refused env reads x_api_key bearer s enforced blank =
    rw (blank, get_current_user) (rw enforced refl)

-- Without a database, once a user has registered a thread, exactly that user passes the check of the
-- thread among the named users; the others are answered 404.
pub registered_thread_guarded :
    (now : ℕ) (thread user requester : String) (s : DataStore)
    → truthy thread ≡ true
    → truthy user ≡ true
    → truthy requester ≡ true
    → (validate_thread_ownership no_pool thread
        (some requester)
        (register_thread_owner now no_pool thread user s)).1
      ≡ (if str_eq user requester then granted true else refused 404)
unfolding validate_thread_ownership is_denied
registered_thread_guarded now thread user requester s t u r =
    rw (t, validate_thread_ownership)
      (rw (get-register_thread_owner now thread thread user s t u)
        (rw (eq_refl thread, is_denied) (rw u (rw r (ground arith)))))
