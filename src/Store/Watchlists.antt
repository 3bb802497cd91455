-- ===== src/Store/Watchlists.antt =====
-- The watchlist operations of tripmate/database/store.py.
use text.Mathlib.TextPositions.{eq_refl}
use multi_ai_agent.Common.{
  ℕ, String, Bool, true, false, Option, none, some, List, ◌≡◌, refl, ap, ◌≢◌, arith, str_eq, truthy,
  All, if◌then◌else◌, is_some,
}
use multi_ai_agent.Common.Dict.{lookup, insert, erase, values, lookup-insert}
use multi_ai_agent.Store.{
  Attempt, no_pool, failed, answered, DataStore, Watchlist, ensure_user_exists,
}
use multi_ai_agent.Store.Owned.{
  visible, owned_by, visible_own, visible_foreign, owned_by-All, delete_visible, delete_visible_lem,
}

abbrev pub owner : Watchlist → String
owner w = w.user_id

-- `base_estimate`, in cents.
unfoldable pub base_estimate : String → ℕ
base_estimate target_type =
    if str_eq target_type "flight"
    then 45000
    else if str_eq target_type "hotel"
    then 18000
    else 75000

-- `none` is the re-raised exception of a failed write: the item is not kept in memory either.
unfoldable pub create_watchlist :
    ℕ
    → String
    → Attempt (Unit {0})
    → String
    → String
    → String
    → String
    → Option ℕ
    → String
    → DataStore
    → DataStore × Option Watchlist
unfolding ensure_user_exists base_estimate
create_watchlist now item_id write user_id title target_type target_value threshold notes store =
    let s = ensure_user_exists now user_id store in
    let item : Watchlist = record {
      id = item_id;
      user_id = user_id;
      title = title;
      target_type = target_type;
      target_value = target_value;
      threshold_price = threshold;
      current_price_estimate = base_estimate target_type;
      currency = "USD";
      notes = notes;
      created_at = now;
      active = true;
    } in
    elim write [
      | failed ↦ (s, none)
      | _ ↦ (record s { watchlists = insert item_id item s.watchlists }, some item)
    ]

-- An answer of the database is final, also where it is that there is no such row.
unfoldable pub get_watchlist :
    Attempt (Option Watchlist) → String → Option String → DataStore → Option Watchlist
get_watchlist read item_id user s = elim read [
  | answered row ↦ row
  | _ ↦ visible owner user (lookup item_id s.watchlists)
]

unfoldable pub list_watchlists :
    Attempt (List Watchlist) → Option String → DataStore → List Watchlist
list_watchlists read user s = elim read [
  | answered rows ↦ rows
  | _ ↦ owned_by owner user (values s.watchlists)
]

delete_found : String → Option Watchlist → Option Watchlist → DataStore → DataStore × Option Bool
delete_found item_id none there s = (s, some false)
delete_found item_id (some item) none s = (s, none)
delete_found item_id (some item) (some there) s =
    (record s { watchlists = erase item_id s.watchlists }, some true)

-- `none` is the KeyError of `del self._watchlists[item_id]`, where the database, asked again, has a
-- row that memory lacks.
unfoldable pub delete_watchlist :
    Attempt Bool
    → Attempt (Option Watchlist)
    → String
    → Option String
    → DataStore
    → DataStore × Option Bool
unfolding delete_found get_watchlist
delete_watchlist delete read item_id user s = elim delete [
  | answered true ↦ (record s { watchlists = erase item_id s.watchlists }, some true)
  | answered false ↦ (s, some false)
  | _ ↦ delete_found item_id (get_watchlist read item_id user s) (lookup item_id s.watchlists) s
]

-- Without a database: the creator reads back what was created, and a named user other than the
-- creator gets nothing.
get-create_watchlist :
    (now : ℕ) (item_id user other title target_type target_value notes : String)
    (threshold : Option ℕ) (s : DataStore)
    → truthy other ≡ true
    → other ≢ user
    → let (s', created) =
        create_watchlist now item_id no_pool user title target_type target_value threshold notes
          s in
      (is_some created ≡ true)
      × (get_watchlist no_pool item_id (some user) s' ≡ created)
      × (get_watchlist no_pool item_id (some other) s' ≡ none)
unfolding create_watchlist get_watchlist
get-create_watchlist now item_id user other title target_type target_value notes threshold s t ne =
    (
      refl,
      simp (lookup-insert, eq_refl) (visible_own owner user _ refl),
      simp (lookup-insert, eq_refl) (visible_foreign owner other _ t ne),
    )

-- Without a database, a list for a named user holds items of that user only.
pub list_watchlists-owned :
    (user : String) (s : DataStore)
    → truthy user ≡ true
    → All (λ w. w.user_id ≡ user) (list_watchlists no_pool (some user) s)
unfolding list_watchlists
list_watchlists-owned user s t = owned_by-All owner user (values s.watchlists) t

-- In memory an item that is visible is there, so that the deletion cannot miss it.
delete_found_memory :
    (item_id : String) (user : Option String) (o : Option Watchlist) (s : DataStore)
    → let (d', answer) = delete_visible owner item_id (visible owner user o) s.watchlists in
      delete_found item_id (visible owner user o) o s ≡ (record s { watchlists = d' }, some answer)
unfolding delete_found visible delete_visible
delete_found_memory item_id user none s = refl
delete_found_memory item_id user (some w) s = ground arith

-- Without a database, deletion raises nothing and answers whether the item was there for the
-- caller; afterwards it is gone where the answer is yes, and every other item is as it was.
delete_watchlist_lem :
    (item_id : String) (user : Option String) (s : DataStore)
    → let (s', answer) = delete_watchlist no_pool no_pool item_id user s in
      let found = is_some (get_watchlist no_pool item_id user s) in
      (answer ≡ some found)
      × ((k : String)
          → lookup k s'.watchlists ≡ (
              if str_eq item_id k
              then (if found then none else lookup k s.watchlists)
              else lookup k s.watchlists))
unfolding delete_watchlist
delete_watchlist_lem item_id user s =
    let (answer, tables) = delete_visible_lem owner item_id user s.watchlists in
    rw (delete_found_memory item_id user (lookup item_id s.watchlists) s) (ap some answer, tables)

-- Where the deletion fails in the database and the database then still shows a row that memory
-- lacks, the call raises.
delete_watchlist_raises :
    (item_id : String) (user : Option String) (row : Watchlist) (s : DataStore)
    → lookup item_id s.watchlists ≡ none
    → delete_watchlist failed (answered (some row)) item_id user s ≡ (s, none)
unfolding delete_watchlist
delete_watchlist_raises item_id user row s e = rw (e, delete_found)
