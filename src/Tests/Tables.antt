-- ===== src/Tests/Tables.antt =====
-- Runs of tripmate/database/store.py.
use multi_ai_agent.Common.{
  ◌≤◌, ◌≡◌, ◌≢◌, refl, String, true, false, none, some, [], ◌∷◌, arith, eq_iff,
}
use multi_ai_agent.Common.Dict.{lookup}
use multi_ai_agent.Store.{no_pool, DataStore, User, Watchlist, Alert, Asset, ResetToken}
use multi_ai_agent.Store.Resets.Once.{reset_token_once, attempts, then_, halt}
use multi_ai_agent.Store.Resets.{verify_and_consume_reset_token, consume_in_memory, is_spent}

abbrev same : String → String
same x = x

abbrev ann : User
ann = record {
  id = "u1";
  username = "ann";
  email = "ann@x.io";
  password_hash = "old";
  role = "user";
  created_at = 1;
}

abbrev wish : Watchlist
wish = record {
  id = "w1";
  user_id = "u1";
  title = "Rome";
  target_type = "flight";
  target_value = "FCO";
  threshold_price = none;
  current_price_estimate = 0;
  currency = "USD";
  notes = "";
  created_at = 1;
  active = true;
}

abbrev notice : Alert
notice = record {
  id = "a1";
  user_id = "u1";
  title = "Drop";
  message = "cheaper";
  alert_type = "price";
  severity = "info";
  watchlist_id = none;
  is_read = false;
  created_at = 1;
}

abbrev ticket : Asset
ticket = record {
  id = "s1";
  user_id = "u1";
  name = "ticket";
  asset_type = "pdf";
  trip_id = some "trip";
  content_uri = "x";
  metadata = [];
  created_at = 1;
}

abbrev grant : ResetToken
grant = record { token = "tok"; user_id = "u1"; expires_at = 100; used = false }

abbrev filled : DataStore
filled = record {
  users = ("u1", ann) ∷ [];
  watchlists = ("w1", wish) ∷ [];
  alerts = ("a1", notice) ∷ [];
  assets = ("s1", ticket) ∷ [];
  reset_tokens = ("tok", grant) ∷ [];
  thread_owners = [];
  api_keys = [];
}

names_differ : ◌≢◌ {A = String} "u2" "u1"
names_differ e = absurd (ground (arith, (eq_iff "u2" "u1").1 e))

abbrev reset_done : DataStore
reset_done = (verify_and_consume_reset_token no_pool 50 "tok" "new" filled).0

-- Another token is tried in between.
abbrev after_attempt : DataStore
after_attempt = (verify_and_consume_reset_token no_pool 55 "other" "newest" reset_done).0

reset_token_once_example :
    (verify_and_consume_reset_token no_pool 60 "tok" "newer" after_attempt ≡ (after_attempt, false))
    × ((t : ResetToken) × (u : User) × (lookup "tok" filled.reset_tokens ≡ some t)
        × (50 ≤ t.expires_at)
        × (lookup t.user_id reset_done.users ≡ some (record u { password_hash = "new" })))
unfolding verify_and_consume_reset_token consume_in_memory lookup is_spent
reset_token_once_example =
    reset_token_once 50 60 "tok" "new" "newer" filled after_attempt refl
      (then_ (attempts no_pool 55 "other" "newest" reset_done) halt)
