-- ===== src/Limiter.antt =====
-- tripmate/middleware/__init__.py: the in-memory part of `SlidingWindowRateLimiter`. The clock is
-- read in milliseconds.
pub mod Window
pub mod Stamps
pub mod Tracked
pub mod Bound
pub mod Client
pub mod Dispatch
use multi_ai_agent.Common.{
  ℕ, zero, suc, ◌+◌, ◌-◌, ◌*◌, ◌/◌, max, String, Bool, true, false, not, ◌&&◌, ◌||◌, Option, none,
  some, List, [], ◌∷◌, ◌++◌, ltb, leb, length, keep, map, if◌then◌else◌,
}
use multi_ai_agent.Common.Dict.{Dict, lookup, insert, erase, drop_where}

pub record Limiter : Type 0 where
  pub max_requests : ℕ
  pub window_seconds : ℕ
  pub max_tracked_ips : ℕ
  pub requests : Dict (List ℕ)
  pub user_requests : Dict (List ℕ)
  pub last_cleanup : ℕ

abbrev pub ms : ℕ → ℕ
ms seconds = seconds * 1000

-- `timestamps[-1]`
abbrev pub last : List ℕ → Option ℕ
last [] = none
last (t ∷ []) = some t
last (t ∷ u ∷ ts) = last (u ∷ ts)

abbrev pub last_or_zero : Option ℕ → ℕ
last_or_zero none = 0
last_or_zero (some t) = t

-- `not timestamps or timestamps[-1] <= window_start`
stale_last : ℕ → ℕ → Option ℕ → Bool
stale_last now window none = true
stale_last now window (some t) = leb (t + window) now

unfoldable pub is_stale : ℕ → ℕ → List ℕ → Bool
unfolding stale_last
is_stale now window ts = stale_last now window (last ts)

unfoldable pub drop_stale : ℕ → ℕ → Dict (List ℕ) → Dict (List ℕ)
unfolding drop_where is_stale
drop_stale now window d = drop_where (is_stale now window) d

-- `sorted(..., key=lambda item: item[1][-1] if item[1] else 0)`, which is stable.
insert_by_last : String → ℕ → List (String × ℕ) → List (String × ℕ)
insert_by_last k t [] = (k, t) ∷ []
insert_by_last k t ((j, u) ∷ l) =
    if leb t u then (k, t) ∷ (j, u) ∷ l else (j, u) ∷ insert_by_last k t l

unfoldable pub sort_by_last : Dict (List ℕ) → List (String × ℕ)
unfolding insert_by_last
sort_by_last [] = []
sort_by_last ((k, ts) ∷ d) = insert_by_last k (last_or_zero (last ts)) (sort_by_last d)

-- Pops the first so many keys of the list.
unfoldable pub evict_first : ℕ → List (String × ℕ) → Dict (List ℕ) → Dict (List ℕ)
evict_first zero l d = d
evict_first (suc n) [] d = d
evict_first (suc n) ((k, t) ∷ l) d = evict_first n l (erase k d)

unfoldable pub evict_over_capacity : ℕ → Dict (List ℕ) → Dict (List ℕ)
unfolding evict_first sort_by_last
evict_over_capacity capacity d =
    if leb capacity (length d) then evict_first (length d - capacity / 2) (sort_by_last d) d else d

unfoldable pub cleanup_stale_records : ℕ → Bool → Limiter → Limiter
cleanup_stale_records now force l =
    if not force && ltb now (l.last_cleanup + ms 60) && ltb (length l.requests) l.max_tracked_ips
    then l
    else record l {
      last_cleanup = now;
      requests =
          evict_over_capacity l.max_tracked_ips (drop_stale now (ms l.window_seconds) l.requests);
      user_requests = drop_stale now (ms l.window_seconds) l.user_requests;
    }

-- The two dictionaries that the check is called with.
pub data Table : Type 0 where
  by_ip by_user : Table

abbrev pub table : Table → Limiter → Dict (List ℕ)
table by_ip l = l.requests
table by_user l = l.user_requests

abbrev pub with_table : Table → Dict (List ℕ) → Limiter → Limiter
with_table by_ip d l = record l { requests = d }
with_table by_user d l = record l { user_requests = d }

abbrev pub or_none : Option (List ℕ) → List ℕ
or_none none = []
or_none (some ts) = ts

-- `is_limited, retry_after`
pub data Verdict : Type 0 where
  passed : Verdict
  limited : ℕ → Verdict

unfoldable pub in_window : ℕ → ℕ → List ℕ → List ℕ
in_window now window ts = keep (λ t. ltb now (t + window)) ts

-- The answer for the timestamps in the window: `none` is the IndexError of `timestamps[0]`.
verdict_for : ℕ → ℕ → ℕ → List ℕ → Option Verdict
verdict_for now window limit ts =
    if leb limit (length ts)
    then elim ts [ [] ↦ none | t ∷ rest ↦ some (limited (max 1 ((t + window - now) / 1000))) ]
    else some passed

record_request : ℕ → String → Table → List ℕ → Limiter → Option Verdict → Option (Limiter × Verdict)
record_request now identifier which ts l none = none
record_request now identifier which ts l (some (limited n)) = some (l, limited n)
record_request now identifier which ts l (some passed) =
    some (with_table which (insert identifier (ts ++ now ∷ []) (table which l)) l, passed)

-- The filtered timestamps of an identifier, after the clean-up.
abbrev pub fresh_stamps : ℕ → String → Table → Limiter → List ℕ
fresh_stamps now identifier which l =
    in_window now (ms l.window_seconds) (or_none (lookup identifier (table which l)))

unfoldable pub is_rate_limited_in_memory :
    ℕ → String → Table → ℕ → Limiter → Option (Limiter × Verdict)
unfolding verdict_for record_request
is_rate_limited_in_memory now identifier which limit l =
    let c = cleanup_stale_records now false l in
    let ts = fresh_stamps now identifier which c in
    record_request now identifier which ts c (verdict_for now (ms c.window_seconds) limit ts)
