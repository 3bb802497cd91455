-- ===== src/Tests/Guards.antt =====
-- Runs of tripmate/api/dependencies.py.
use multi_ai_agent.Common.{
  ◌&&◌, false, ◌≡◌, ◌⊎◌, refl, String, true, Option, none, some, str_eq, truthy, if◌then◌else◌,
  is_some,
}
use multi_ai_agent.Common.Dict.{lookup}
use multi_ai_agent.Store.{no_pool, empty_store}
use multi_ai_agent.Store.Threads.{register_thread_owner}
use multi_ai_agent.Store.Keys.{get_user_by_api_key, find_in_memory}
use multi_ai_agent.Access.{
  is_ascii, is_master_key, compare_digest, refused, granted, Settings, Claims, Env, Reads,
  admin_user, provided_key, given_token, verify_api_key, get_current_user, require_admin,
  validate_thread_ownership,
}
use multi_ai_agent.Access.Rules.{
  verify_api_key_enforced, require_admin_sound, no_token_refused, registered_thread_guarded,
}

abbrev enforced : Settings
enforced = record { api_key = "master"; auth_required = true }

abbrev no_claims : String → Option Claims
no_claims token = none

abbrev env : Env
env = record {
  settings = enforced;
  verify_token = no_claims;
  digest = λ x. x;
  strip = λ x. x;
  mail_of = λ x. x;
  now = 5;
}

abbrev by_memory : Reads
by_memory = record { by_id = no_pool; by_key = no_pool; key_owner = no_pool }

verify_api_key_enforced_example :
    let key = provided_key (some "master") none in
    (verify_api_key enforced no_claims (some "master") none ≡ refused 401)
    ⊎ ((verify_api_key enforced no_claims (some "master") none ≡ refused 500)
        × (truthy "master" ≡ true)
        × ((is_ascii key && is_ascii "master") ≡ false))
    ⊎ ((verify_api_key enforced no_claims (some "master") none ≡ granted key)
        × (truthy key ≡ true)
        × ((key ≡ "master") ⊎ (is_some (no_claims key) ≡ true)))
verify_api_key_enforced_example =
    verify_api_key_enforced enforced no_claims (some "master") none refl

require_admin_sound_example :
    ((get_current_user env by_memory none (some "master") empty_store).1 ≡ granted admin_user)
    × (◌≡◌ {A = String} admin_user.role "admin")
unfolding require_admin get_current_user given_token is_master_key compare_digest is_ascii
    get_user_by_api_key empty_store find_in_memory lookup
require_admin_sound_example =
    require_admin_sound env by_memory none (some "master") empty_store admin_user refl

no_token_refused_example :
    get_current_user env by_memory none none empty_store ≡ (empty_store, refused 401)
unfolding given_token
no_token_refused_example = no_token_refused env by_memory none none empty_store refl refl

registered_thread_guarded_example :
    (validate_thread_ownership no_pool "t1"
      (some "u2")
      (register_thread_owner 5 no_pool "t1" "u1" empty_store)).1
    ≡ (if str_eq "u1" "u2" then granted true else refused 404)
registered_thread_guarded_example =
    registered_thread_guarded 5 "t1" "u1" "u2" empty_store refl refl refl
