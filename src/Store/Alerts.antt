-- ===== src/Store/Alerts.antt =====
-- The alert operations of tripmate/database/store.py.
use multi_ai_agent.Common.{
  ℕ, String, Bool, true, false, Option, none, some, List, ◌≡◌, refl, ◌∙◌, ◌⊎◌, ◌≢◌, inl, inr,
  str_eq, truthy, All, if◌then◌else◌,
}
use multi_ai_agent.Common.Dict.{lookup, insert, erase, values, lookup-insert}
use multi_ai_agent.Store.{Attempt, no_pool, failed, answered, DataStore, Alert, ensure_user_exists}
use multi_ai_agent.Store.Owned.{
  visible, owned_by, visible_own, visible_foreign, owned_by-All, delete_visible,
}

abbrev pub owner : Alert → String
owner a = a.user_id

unfoldable pub create_alert :
    ℕ
    → String
    → Attempt (Unit {0})
    → String
    → String
    → String
    → String
    → String
    → Option String
    → DataStore
    → DataStore × Option Alert
unfolding ensure_user_exists
create_alert now alert_id write user_id title message alert_type severity watchlist_id store =
    let s = ensure_user_exists now user_id store in
    let alert : Alert = record {
      id = alert_id;
      user_id = user_id;
      title = title;
      message = message;
      alert_type = alert_type;
      severity = severity;
      watchlist_id = watchlist_id;
      is_read = false;
      created_at = now;
    } in
    elim write [
      | failed ↦ (s, none)
      | _ ↦ (record s { alerts = insert alert_id alert s.alerts }, some alert)
    ]

unfoldable pub list_alerts : Attempt (List Alert) → Option String → DataStore → List Alert
list_alerts read user s = elim read [
  | answered rows ↦ rows
  | _ ↦ owned_by owner user (values s.alerts)
]

-- Writes the alert, as read, where there is one.
mark : String → Option Alert → DataStore → DataStore × Option Alert
mark alert_id none s = (s, none)
mark alert_id (some alert) s =
    let read : Alert = record alert { is_read = true } in
    (record s { alerts = insert alert_id read s.alerts }, some read)

unfoldable pub mark_alert_read :
    Attempt (Option Alert) → String → Option String → DataStore → DataStore × Option Alert
unfolding mark
mark_alert_read update alert_id user s = elim update [
  | answered row ↦ mark alert_id row s
  | _ ↦ mark alert_id (visible owner user (lookup alert_id s.alerts)) s
]

unfoldable pub delete_alert : Attempt Bool → String → Option String → DataStore → DataStore × Bool
delete_alert delete alert_id user s = elim delete [
  | answered true ↦ (record s { alerts = erase alert_id s.alerts }, true)
  | answered false ↦ (s, false)
  | _ ↦
      let (d, answer) =
        delete_visible owner alert_id (visible owner user (lookup alert_id s.alerts)) s.alerts in
      (record s { alerts = d }, answer)
]

-- Without a database, a list for a named user holds alerts of that user only.
pub list_alerts-owned :
    (user : String) (s : DataStore)
    → truthy user ≡ true
    → All (λ a. a.user_id ≡ user) (list_alerts no_pool (some user) s)
unfolding list_alerts
list_alerts-owned user s t = owned_by-All owner user (values s.alerts) t

mark_lem :
    (alert_id : String) (o : Option Alert) (s : DataStore)
    → let (s', answer) = mark alert_id o s in
      ((o ≡ none) × (answer ≡ none) × (s' ≡ s))
      ⊎ ((a : Alert) × (o ≡ some a)
          × (answer ≡ some (record a { is_read = true }))
          × ((k : String)
              → lookup k s'.alerts ≡ (
                  if str_eq alert_id k
                  then some (record a { is_read = true })
                  else lookup k s.alerts)))
unfolding mark
mark_lem alert_id none s = inl (refl, refl, refl)
mark_lem alert_id (some a) s =
    inr (a, refl, refl, λ k. lookup-insert alert_id k (record a { is_read = true }) s.alerts)

-- The alert that the operation goes by: that of the database where it answers.
abbrev pub found_alert : Attempt (Option Alert) → String → Option String → DataStore → Option Alert
found_alert update alert_id user s = elim update [
  | answered row ↦ row
  | _ ↦ visible owner user (lookup alert_id s.alerts)
]

-- Whether or not the database answers: where the caller has no such alert nothing changes and
-- nothing is returned; otherwise that one alert is marked as read, and every other one is as it was.
mark_alert_read_lem :
    (update : Attempt (Option Alert)) (alert_id : String) (user : Option String) (s : DataStore)
    → let found = found_alert update alert_id user s in
      let (s', answer) = mark_alert_read update alert_id user s in
      ((found ≡ none) × (answer ≡ none) × (s' ≡ s))
      ⊎ ((a : Alert) × (found ≡ some a)
          × (answer ≡ some (record a { is_read = true }))
          × ((k : String)
              → lookup k s'.alerts ≡ (
                  if str_eq alert_id k
                  then some (record a { is_read = true })
                  else lookup k s.alerts)))
unfolding mark_alert_read
mark_alert_read_lem no_pool alert_id user s =
    mark_lem alert_id (visible owner user (lookup alert_id s.alerts)) s
mark_alert_read_lem failed alert_id user s =
    mark_lem alert_id (visible owner user (lookup alert_id s.alerts)) s
mark_alert_read_lem (answered row) alert_id user s = mark_lem alert_id row s

-- Without a database, a caller who is not the owner cannot delete an alert, and the owner can.
pub delete_alert_owner :
    (alert_id user other : String) (a : Alert) (s : DataStore)
    → lookup alert_id s.alerts ≡ some a
    → a.user_id ≡ user
    → truthy other ≡ true
    → other ≢ user
    → (delete_alert no_pool alert_id (some other) s ≡ (s, false))
      × (delete_alert no_pool alert_id (some user) s
          ≡ (record s { alerts = erase alert_id s.alerts }, true))
unfolding delete_alert delete_visible
delete_alert_owner alert_id user other a s e o t ne = (
  rw e (rw (visible_foreign owner other a t (λ q. ne (q ∙ o)))),
  rw e (rw (visible_own owner user a o)),
)
