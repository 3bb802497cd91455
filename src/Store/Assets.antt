-- ===== src/Store/Assets.antt =====
-- The asset operations of tripmate/database/store.py.
use Prim.Native.String.{◌++◌ as append}
use multi_ai_agent.Common.{
  ℕ, String, Bool, true, false, ◌&&◌, Option, none, some, List, ◌≡◌, ap, str_eq, eq_iff, truthy,
  keep, All, All-kept, All-keep, All-imp, All-both, if◌then◌else◌, is_some,
}
use multi_ai_agent.Common.Dict.{lookup, insert, erase, values}
use multi_ai_agent.Store.{
  Attempt, no_pool, failed, answered, DataStore, Asset, or_empty, ensure_user_exists,
}
use multi_ai_agent.Store.Owned.{visible, owned_by, owned_by-All}

abbrev pub owner : Asset → String
owner a = a.user_id

-- `content_uri or f"tripmate://storage/{asset_id}"`
unfoldable pub uri_or_default : String → Option String → String
uri_or_default asset_id uri =
    if truthy (or_empty uri) then or_empty uri else append "tripmate://storage/" asset_id

unfoldable pub create_asset :
    ℕ
    → String
    → Attempt (Unit {0})
    → String
    → String
    → String
    → Option String
    → Option String
    → List (String × String)
    → DataStore
    → DataStore × Option Asset
unfolding ensure_user_exists uri_or_default
create_asset now asset_id write user_id name asset_type trip_id content_uri metadata store =
    let s = ensure_user_exists now user_id store in
    let asset : Asset = record {
      id = asset_id;
      user_id = user_id;
      name = name;
      asset_type = asset_type;
      trip_id = trip_id;
      content_uri = uri_or_default asset_id content_uri;
      metadata = metadata;
      created_at = now;
    } in
    elim write [
      | failed ↦ (s, none)
      | _ ↦ (record s { assets = insert asset_id asset s.assets }, some asset)
    ]

unfoldable pub get_asset :
    Attempt (Option Asset) → String → Option String → DataStore → Option Asset
get_asset read asset_id user s = elim read [
  | answered row ↦ row
  | _ ↦ visible owner user (lookup asset_id s.assets)
]

-- `if trip_id: res = [a for a in res if a.get("trip_id") == trip_id]`
unfoldable pub of_trip : Option String → List Asset → List Asset
of_trip trip items =
    if truthy (or_empty trip)
    then keep (λ a. is_some a.trip_id && str_eq (or_empty a.trip_id) (or_empty trip)) items
    else items

unfoldable pub list_assets :
    Attempt (List Asset) → Option String → Option String → DataStore → List Asset
unfolding of_trip
list_assets read user trip s = elim read [
  | answered rows ↦ rows
  | _ ↦ of_trip trip (owned_by owner user (values s.assets))
]

delete_found : String → Option Asset → Option Asset → DataStore → DataStore × Option Bool
delete_found asset_id none there s = (s, some false)
delete_found asset_id (some asset) none s = (s, none)
delete_found asset_id (some asset) (some there) s =
    (record s { assets = erase asset_id s.assets }, some true)

-- `none` is the KeyError of `del self._assets[asset_id]`.
unfoldable pub delete_asset :
    Attempt Bool
    → Attempt (Option Asset)
    → String
    → Option String
    → DataStore
    → DataStore × Option Bool
unfolding delete_found get_asset
delete_asset delete read asset_id user s = elim delete [
  | answered true ↦ (record s { assets = erase asset_id s.assets }, some true)
  | answered false ↦ (s, some false)
  | _ ↦ delete_found asset_id (get_asset read asset_id user s) (lookup asset_id s.assets) s
]

abbrev is_in_trip : String → Asset → Bool
is_in_trip trip a = is_some a.trip_id && str_eq (or_empty a.trip_id) trip

abbrev in_trip : String → List Asset → List Asset
in_trip trip items = keep (is_in_trip trip) items

same_trip :
    (trip : String) (o : Option String)
    → (is_some o && str_eq (or_empty o) trip) ≡ true
    → o ≡ some trip
same_trip trip none e = cc
same_trip trip (some t) e = ap some ((eq_iff t trip).0 e)

-- Without a database, a list for a named user and a named trip holds assets of that user and that
-- trip only.
list_assets-owned :
    (user trip : String) (s : DataStore)
    → truthy user ≡ true
    → truthy trip ≡ true
    → All
        (λ a. (a.user_id ≡ user) × (a.trip_id ≡ some trip))
        (list_assets no_pool (some user) (some trip) s)
unfolding list_assets
list_assets-owned user trip s t r =
    let items = owned_by owner (some user) (values s.assets) in
    rw (r, of_trip)
      (All-both (λ a. a.user_id ≡ user) (λ a. a.trip_id ≡ some trip) (in_trip trip items)
        (All-keep (λ a. a.user_id ≡ user) (is_in_trip trip) items
          (owned_by-All owner user (values s.assets) t))
        (All-imp (in_trip trip items) (λ a e. same_trip trip a.trip_id e)
          (All-kept (is_in_trip trip) items)))
