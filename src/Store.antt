-- ===== src/Store.antt =====
-- tripmate/database/store.py: `DataStore`, the in-memory tables and their use of PostgreSQL. What the
-- database answers to the statements of an operation is an argument of it; times and fresh
-- identifiers too, and so are prices, in cents.
pub mod Owned
pub mod Watchlists
pub mod Alerts
pub mod Assets
pub mod Users
pub mod Resets
pub mod Threads
pub mod Keys
use Prim.Native.String.{◌++◌ as append}
use multi_ai_agent.Common.{
  ℕ, String, Bool, true, false, not, ◌&&◌, Option, none, some, List, [], ◌∷◌, str_eq, truthy,
  is_some, if◌then◌else◌,
}
use multi_ai_agent.Common.Dict.{Dict, lookup, insert}

-- One use of the database: there is no pool, an exception was raised and logged, or it answered.
pub data Attempt {ℓ} (A : Type ℓ) : Type ℓ where
  no_pool : Attempt A
  failed : Attempt A
  answered : A → Attempt A

pub record User : Type 0 where
  pub id : String
  pub username : String
  pub email : String
  pub password_hash : String
  pub role : String
  pub created_at : ℕ

pub record Watchlist : Type 0 where
  pub id : String
  pub user_id : String
  pub title : String
  pub target_type : String
  pub target_value : String
  pub threshold_price : Option ℕ
  pub current_price_estimate : ℕ
  pub currency : String
  pub notes : String
  pub created_at : ℕ
  pub active : Bool

pub record Alert : Type 0 where
  pub id : String
  pub user_id : String
  pub title : String
  pub message : String
  pub alert_type : String
  pub severity : String
  pub watchlist_id : Option String
  pub is_read : Bool
  pub created_at : ℕ

pub record Asset : Type 0 where
  pub id : String
  pub user_id : String
  pub name : String
  pub asset_type : String
  pub trip_id : Option String
  pub content_uri : String
  pub metadata : List (String × String)
  pub created_at : ℕ

pub record ResetToken : Type 0 where
  pub token : String
  pub user_id : String
  pub expires_at : ℕ
  pub used : Bool

pub record ApiKey : Type 0 where
  pub key_hash : String
  pub user_id : String
  pub name : String
  pub created_at : ℕ

pub record DataStore : Type 0 where
  pub users : Dict User
  pub watchlists : Dict Watchlist
  pub alerts : Dict Alert
  pub assets : Dict Asset
  pub reset_tokens : Dict ResetToken
  pub thread_owners : Dict String
  pub api_keys : Dict ApiKey

unfoldable pub empty_store : DataStore
empty_store = record {
  users = [];
  watchlists = [];
  alerts = [];
  assets = [];
  reset_tokens = [];
  thread_owners = [];
  api_keys = [];
}

abbrev pub or_empty : Option String → String
or_empty none = ""
or_empty (some s) = s

-- `user_id and item["user_id"] != user_id`, for the owner of the item.
abbrev pub is_foreign : Option String → String → Bool
is_foreign user owner = truthy (or_empty user) && not (str_eq owner (or_empty user))

-- The in-memory half of `_ensure_user_exists`; its statement has no effect here whether it succeeds
-- or fails.
unfoldable pub ensure_user_exists : ℕ → String → DataStore → DataStore
ensure_user_exists now user_id s =
    if truthy user_id && not (is_some (lookup user_id s.users))
    then record s {
      users =
          insert user_id
            (record {
              id = user_id;
              username = append "auto_" user_id;
              email = append user_id "@tripmate.local";
              password_hash = "dummy_hash";
              role = "user";
              created_at = now;
            })
            s.users;
    }
    else s
