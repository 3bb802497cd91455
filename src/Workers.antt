-- ===== src/Workers.antt =====
-- task_watchlist_price_scan of tripmate/tasks/workers.py. Prices are in cents; `reduced` is
-- `round(price * 0.92, 2)` in floats and `dollars` the format of a price, both arguments, as are the
-- identifier and the answer of the database for the alert of each watchlist.
use Prim.Native.String.{◌++◌ as append}
use multi_ai_agent.Common.{
  ℕ, ◌+◌, String, Bool, true, false, Option, none, some, List, [], ◌∷◌, keep, length, leb,
}
use multi_ai_agent.Store.{DataStore, Watchlist, Alert, Attempt}
use multi_ai_agent.Store.Watchlists.{list_watchlists}
use multi_ai_agent.Store.Alerts.{create_alert}

pub record ScanReport : Type 0 where
  pub scanned_watchlists : ℕ
  pub alerts_triggered : ℕ

module _ (reduced : ℕ → ℕ) (dollars : ℕ → String) (now : ℕ) (alert_id : String → String)
    (write : String → Attempt (Unit {0})) where
  unfoldable pub is_due : Watchlist → Bool
  is_due w = elim w.threshold_price [
    | none ↦ false
    | some t ↦ leb (reduced w.current_price_estimate) t
  ]

  abbrev pub price_message : ℕ → ℕ → String
  price_message threshold price = append "Target price of $" (
      append (dollars threshold)
        (append " reached! Current estimate dropped to $" (append (dollars price) ".")))

  abbrev threshold_of : Watchlist → ℕ
  threshold_of w = elim w.threshold_price [ none ↦ 0 | some t ↦ t ]

  unfoldable pub raise_alert : Watchlist → DataStore → DataStore × Option Alert
  unfolding create_alert
  raise_alert w s =
      create_alert now (alert_id w.id) (write w.id) w.user_id (append "Price Drop Alert: " w.title)
        (price_message (threshold_of w) (reduced w.current_price_estimate)) "price_drop" "success"
        (some w.id) s

  -- The loop, with the alerts counted so far: `none` where an alert could not be written.
  unfoldable pub scan_loop : List Watchlist → ℕ → DataStore → DataStore × Option ℕ
  unfolding is_due raise_alert
  scan_loop [] triggered s = (s, some triggered)
  scan_loop (w ∷ ws) triggered s = elim (is_due w) [
    | false ↦ scan_loop ws triggered s
    | true ↦
        let (after, alert) = raise_alert w s in
        elim alert [ none ↦ (after, none) | some a ↦ scan_loop ws (triggered + 1) after ]
  ]

  abbrev report_of : ℕ → DataStore × Option ℕ → DataStore × Option ScanReport
  report_of scanned (s, none) = (s, none)
  report_of scanned (s, some n) =
      (s, some (record { scanned_watchlists = scanned; alerts_triggered = n }))

  unfoldable pub task_watchlist_price_scan :
      Attempt (List Watchlist) → Option String → DataStore → DataStore × Option ScanReport
  unfolding scan_loop list_watchlists
  task_watchlist_price_scan read user_id s =
      let watchlists = keep (λ w. w.active) (list_watchlists read user_id s) in
      report_of (length watchlists) (scan_loop watchlists 0 s)
