-- ===== src/Tests/Queues.antt =====
-- Runs of tripmate/tasks/queue.py.
use mathlib.Core.List.{reverse}
use multi_ai_agent.Common.{
  take, ℕ, ◌≡◌, ◌⊎◌, refl, String, true, false, none, some, [], ◌∷◌, arith, str_eq, truthy, keep,
  if◌then◌else◌,
}
use multi_ai_agent.Common.Dict.{lookup, values}
use multi_ai_agent.Queue.{
  Status, pending, cancelled, Task, TaskQueue, is_terminal, get_task, list_tasks, cancel_task,
  dequeue, execute_begin, is_foreign,
}
use multi_ai_agent.Queue.Listing.{shown, list_tasks_newest, list_tasks_limit_zero}
use multi_ai_agent.Queue.Access.{get_task_owned, cancel_task_lem}
use multi_ai_agent.Queue.Lifecycle.{begins, halt, then_, IsDead, cancelled_task_leaks}

abbrev Payload : Type 0
Payload = ℕ

abbrev task_of : Status → Task Payload Payload
task_of s = record {
  id = "t";
  name = "eval";
  user_id = some "ann";
  status = s;
  payload = 1;
  progress_percent = 0;
  result = none;
  error = none;
  created_at = 1;
  started_at = none;
  finished_at = none;
}

abbrev queue_of : Status → TaskQueue Payload Payload
queue_of s = record {
  handlers = "eval" ∷ [];
  tasks = ("t", task_of s) ∷ [];
  running_tasks = [];
  queue = "t" ∷ [];
  is_running = true;
  permits = 2;
  executing = [];
}

list_tasks_newest_example :
    list_tasks (some "ann") none 5 (queue_of pending)
    ≡ take 5 (keep (shown (some "ann") none) (reverse (values (queue_of pending).tasks)))
list_tasks_newest_example = list_tasks_newest (some "ann") none 5 (queue_of pending) (omega arith)

list_tasks_limit_zero_example :
    list_tasks (some "ann") none 0 (queue_of pending)
    ≡ list_tasks (some "ann") none 1 (queue_of pending)
list_tasks_limit_zero_example = list_tasks_limit_zero (some "ann") none (queue_of pending)

get_task_owned_example : (truthy "ann" ≡ false) ⊎ (◌≡◌ {A = String} "ann" "ann")
unfolding get_task lookup is_foreign
get_task_owned_example = get_task_owned "t" "ann" (queue_of pending) (task_of pending) refl refl

cancel_task_lem_example :
    let (q', answer) = cancel_task 9 "t" (some "ann") (queue_of pending) in
    ((answer ≡ false) × (q' ≡ queue_of pending))
    ⊎ ((answer ≡ true)
        × ((t : Task Payload Payload) × (get_task "t" (some "ann") (queue_of pending) ≡ some t)
            × (is_terminal t.status ≡ false)
            × ((k : String)
                → lookup k q'.tasks ≡ (
                    if str_eq "t" k
                    then some (record t { status = cancelled; finished_at = some 9 })
                    else lookup k (queue_of pending).tasks))))
cancel_task_lem_example = cancel_task_lem 9 "t" (some "ann") (queue_of pending)

cancelled_task_leaks_example : IsDead "t" (execute_begin 5 "t" (dequeue (queue_of cancelled)))
unfolding lookup
cancelled_task_leaks_example =
    cancelled_task_leaks "t" [] (queue_of cancelled)
      (execute_begin 5 "t" (dequeue (queue_of cancelled))) refl refl refl refl
      (then_ (begins (dequeue (queue_of cancelled)) 5 "t") halt)
