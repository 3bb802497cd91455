-- ===== src/Store/Threads.antt =====
-- The owners of threads in tripmate/database/store.py.
use multi_ai_agent.Common.{
  ℕ, String, true, ◌&&◌, Option, none, some, ◌≡◌, arith, str_eq, truthy, if◌then◌else◌,
}
use multi_ai_agent.Common.Dict.{lookup, insert, lookup-insert}
use multi_ai_agent.Store.{Attempt, no_pool, answered, DataStore, ensure_user_exists}

-- The memory is written whether the statement succeeds or fails; an empty identifier is ignored.
unfoldable pub register_thread_owner :
    ℕ → Attempt (Unit {0}) → String → String → DataStore → DataStore
register_thread_owner now write thread_id user_id s =
    if truthy thread_id && truthy user_id
    then (let s' = ensure_user_exists now user_id s in
        record s' { thread_owners = insert thread_id user_id s'.thread_owners })
    else s

from_row : String → Option String → DataStore → DataStore × Option String
from_row thread_id none s = (s, lookup thread_id s.thread_owners)
from_row thread_id (some user_id) s =
    (record s { thread_owners = insert thread_id user_id s.thread_owners }, some user_id)

unfoldable pub get_thread_owner :
    Attempt (Option String) → String → DataStore → DataStore × Option String
unfolding from_row
get_thread_owner read thread_id s = elim read [
  | answered row ↦ from_row thread_id row s
  | _ ↦ (s, lookup thread_id s.thread_owners)
]

keeps_owners :
    (now : ℕ) (user : String) (s : DataStore)
    → (ensure_user_exists now user s).thread_owners ≡ s.thread_owners
unfolding ensure_user_exists
keeps_owners now user s = ground arith

-- Without a database a registered thread belongs to the one who registered it last, and the other
-- threads keep their owners.
pub get-register_thread_owner :
    (now : ℕ) (thread other user : String) (s : DataStore)
    → truthy thread ≡ true
    → truthy user ≡ true
    → let s' = register_thread_owner now no_pool thread user s in
      (get_thread_owner no_pool other s').1
      ≡ (if str_eq thread other then some user else (get_thread_owner no_pool other s).1)
unfolding register_thread_owner get_thread_owner
get-register_thread_owner now thread other user s t u =
    rw (t, register_thread_owner) (rw u (simp (lookup-insert, keeps_owners)))
