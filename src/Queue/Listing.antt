-- ===== src/Queue/Listing.antt =====
-- What `list_tasks` and `get_stats` report.
use mathlib.Core.List.{reverse}
use multi_ai_agent.Common.{
  take, ℕ, zero, suc, ◌+◌, ◌<◌, String, Bool, not, Option, List, [], ◌∷◌, arith, ◌≡◌, ◌∙◌, refl,
  length, count, keep,
}
use multi_ai_agent.Common.Dict.{Dict, values}
use multi_ai_agent.Queue.{
  Status, pending, running, completed, failed, cancelled, same_status, Task, TaskQueue, hidden,
  list_loop, list_tasks, get_stats,
}

length-values {ℓ} : {V : Type ℓ} (d : Dict V) → length (values d) ≡ length d
unfolding values
length-values [] = refl
length-values ((k, v) ∷ d) = omega (arith, length-values d)

module _ {P R : Type 0} where
  -- The filter, as one test.
  abbrev pub shown : Option String → Option (Option Status) → Task P R → Bool
  shown user status t = not (hidden user status t)

  list_loop_lem :
      (user : Option String) (status : Option (Option Status)) (limit : ℕ) (ts : List (Task P R))
      (n k : ℕ)
      → n + suc k ≡ limit
      → list_loop user status limit ts n ≡ take (suc k) (keep (shown user status) ts)
  unfolding list_loop
  list_loop_lem user status limit [] n k e = refl
  list_loop_lem user status limit (t ∷ ts) n zero e =
      ground (arith, list_loop_lem user status limit ts n zero)
  list_loop_lem user status limit (t ∷ ts) n (suc k) e = ground (
    arith,
    list_loop_lem user status limit ts n (suc k),
    list_loop_lem user status limit ts (n + 1) k,
  )

  -- With a positive limit the list is that of the newest tasks that pass both filters, newest
  -- first, cut at the limit.
  pub list_tasks_newest :
      (user : Option String) (status : Option (Option Status)) (limit : ℕ) (q : TaskQueue P R)
      → 0 < limit
      → list_tasks user status limit q
        ≡ take limit (keep (shown user status) (reverse (values q.tasks)))
  unfolding list_tasks
  list_tasks_newest user status zero q h = absurd (omega arith)
  list_tasks_newest user status (suc k) q h =
      list_loop_lem user status (suc k) (reverse (values q.tasks)) 0 k (omega arith)

  list_loop_limit_zero :
      (user : Option String) (status : Option (Option Status)) (ts : List (Task P R)) (n : ℕ)
      → list_loop user status 0 ts n ≡ list_loop user status 1 ts n
  unfolding list_loop
  list_loop_limit_zero user status [] n = refl
  list_loop_limit_zero user status (t ∷ ts) n =
      ground (arith, list_loop_limit_zero user status ts n)

  -- A limit of zero lets one task through, the newest that passes both filters.
  pub list_tasks_limit_zero :
      (user : Option String) (status : Option (Option Status)) (q : TaskQueue P R)
      → list_tasks user status 0 q ≡ list_tasks user status 1 q
  unfolding list_tasks
  list_tasks_limit_zero user status q =
      list_loop_limit_zero user status (reverse (values q.tasks)) 0

  abbrev counts : List (Task P R) → Status → ℕ
  counts ts s = count (λ t. same_status t.status s) ts

  counts_partition :
      (ts : List (Task P R))
      → counts ts pending
          + counts ts running
          + counts ts completed
          + counts ts failed
          + counts ts cancelled
        ≡ length ts
  counts_partition [] = omega arith
  counts_partition (t ∷ ts) = ground (arith, counts_partition ts)

  -- The five counts of the statistics add up to the number of tasks.
  stats_partition :
      (q : TaskQueue P R)
      → let s = get_stats q in
        s.pending_tasks + s.running_count + s.completed_tasks + s.failed_tasks + s.cancelled_tasks
        ≡ s.total_tasks
  unfolding get_stats
  stats_partition q = counts_partition (values q.tasks) ∙ length-values q.tasks
