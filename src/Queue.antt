-- ===== src/Queue.antt =====
-- tripmate/tasks/queue.py: `AsyncTaskQueue`. The handlers, the clock and the fresh identifiers are
-- outside: a step has them, or what they give, as arguments.
pub mod Listing
pub mod Access
pub mod Lifecycle
use multi_ai_agent.Common.{
  ℕ, zero, suc, ◌+◌, ◌-◌, String, Bool, true, false, not, ◌&&◌, ◌||◌, Option, none, some, List, [],
  ◌∷◌, ◌++◌, ltb, leb, min, length, any, count, str_eq, truthy, is_some, if◌then◌else◌,
}
use Prim.Native.String.{◌++◌ as append}
use multi_ai_agent.Common.Dict.{Dict, lookup, insert, values}
use mathlib.Core.List.{reverse}

pub data Status : Type 0 where
  pending running completed failed cancelled : Status

abbrev pub same_status : Status → Status → Bool
same_status pending pending = true
same_status running running = true
same_status completed completed = true
same_status failed failed = true
same_status cancelled cancelled = true
same_status _ _ = false

-- `status in ("COMPLETED", "FAILED", "CANCELLED")`
abbrev pub is_terminal : Status → Bool
is_terminal pending = false
is_terminal running = false
is_terminal _ = true

pub record Task (P R : Type 0) : Type 0 where
  pub id : String
  pub name : String
  pub user_id : Option String
  pub status : Status
  pub payload : P
  pub progress_percent : ℕ
  pub result : Option R
  pub error : Option String
  pub created_at : ℕ
  pub started_at : Option ℕ
  pub finished_at : Option ℕ

-- `permits` is the semaphore's counter, and `executing` the coroutines inside `async with`.
pub record TaskQueue (P R : Type 0) : Type 0 where
  pub handlers : List String
  pub tasks : Dict (Task P R)
  pub running_tasks : List String
  pub queue : List String
  pub is_running : Bool
  pub permits : ℕ
  pub executing : List String

-- An integer, as `update_task_progress` is given one: the sign and the magnitude.
pub data Percent : Type 0 where
  below_zero : ℕ → Percent
  at_least_zero : ℕ → Percent

-- `max(0, min(100, p))`
unfoldable pub clamp_percent : Percent → ℕ
clamp_percent (below_zero n) = 0
clamp_percent (at_least_zero n) = min 100 n

-- How a handler ends.
pub data Outcome (R : Type 0) : Type 0 where
  returned : R → Outcome R
  was_cancelled : Outcome R
  raised : String → Outcome R

abbrev pub mem : String → List String → Bool
mem k ks = any (λ x. str_eq x k) ks

unfoldable pub without : String → List String → List String
without k [] = []
without k (x ∷ ks) = let rest = without k ks in if str_eq x k then rest else x ∷ rest

-- One coroutine of that name leaves.
unfoldable pub erase_first : String → List String → List String
erase_first k [] = []
erase_first k (x ∷ ks) = if str_eq x k then ks else x ∷ erase_first k ks

abbrev pub add_key : String → List String → List String
add_key k ks = if mem k ks then ks else ks ++ k ∷ []

abbrev pub or_empty : Option String → String
or_empty none = ""
or_empty (some s) = s

pub record Stats : Type 0 where
  pub active_workers : ℕ
  pub total_tasks : ℕ
  pub pending_tasks : ℕ
  pub running_count : ℕ
  pub completed_tasks : ℕ
  pub failed_tasks : ℕ
  pub cancelled_tasks : ℕ

module _ {P R : Type 0} where
  unfoldable pub new : TaskQueue P R
  new = record {
    handlers = [];
    tasks = [];
    running_tasks = [];
    queue = [];
    is_running = false;
    permits = 0;
    executing = [];
  }

  unfoldable pub register_handler : String → TaskQueue P R → TaskQueue P R
  register_handler name q = record q { handlers = add_key name q.handlers }

  unfoldable pub start : ℕ → TaskQueue P R → TaskQueue P R
  start max_concurrent q =
      if q.is_running then q else record q { is_running = true; permits = max_concurrent }

  -- Every asyncio task is told to cancel, and ends by a step of its own.
  unfoldable pub stop : TaskQueue P R → TaskQueue P R
  stop q = record q { is_running = false; running_tasks = [] }

  -- `none` is the ValueError of an unknown task name.
  unfoldable pub submit_task :
      ℕ → String → String → P → Option String → TaskQueue P R → Option (TaskQueue P R × Task P R)
  submit_task now task_id name payload user_id q =
      let task : Task P R = record {
        id = task_id;
        name = name;
        user_id = user_id;
        status = pending;
        payload = payload;
        progress_percent = 0;
        result = none;
        error = none;
        created_at = now;
        started_at = none;
        finished_at = none;
      } in
      if mem name q.handlers
      then some
          (record q { tasks = insert task_id task q.tasks; queue = q.queue ++ task_id ∷ [] }, task)
      else none

  -- `user_id and task.get("user_id") and task["user_id"] != user_id`
  unfoldable pub is_foreign : Option String → Task P R → Bool
  is_foreign user task =
      truthy (or_empty user)
      && truthy (or_empty task.user_id)
      && not (str_eq (or_empty task.user_id) (or_empty user))

  visible : Option String → Option (Task P R) → Option (Task P R)
  visible user none = none
  visible user (some task) = if is_foreign user task then none else some task

  unfoldable pub get_task : String → Option String → TaskQueue P R → Option (Task P R)
  unfolding visible is_foreign
  get_task task_id user q = visible user (lookup task_id q.tasks)

  -- `status and t["status"] != status.upper()`: `none` is no filter, and `some none` a text that is
  -- not the name of a status.
  abbrev pub status_differs : Option (Option Status) → Task P R → Bool
  status_differs none task = false
  status_differs (some none) task = true
  status_differs (some (some s)) task = not (same_status task.status s)

  -- The two `continue`s of the loop.
  unfoldable pub hidden : Option String → Option (Option Status) → Task P R → Bool
  unfolding is_foreign
  hidden user status t = is_foreign user t || status_differs status t

  -- The loop over the reversed tasks; `len(results) >= limit` is read after each append.
  unfoldable pub list_loop :
      Option String → Option (Option Status) → ℕ → List (Task P R) → ℕ → List (Task P R)
  list_loop user status limit [] n = []
  list_loop user status limit (t ∷ ts) n =
      let skipped = list_loop user status limit ts n in
      let rest = list_loop user status limit ts (n + 1) in
      if hidden user status t then skipped else if leb limit (n + 1) then t ∷ [] else t ∷ rest

  unfoldable pub list_tasks :
      Option String → Option (Option Status) → ℕ → TaskQueue P R → List (Task P R)
  unfolding list_loop hidden
  list_tasks user status limit q = list_loop user status limit (reverse (values q.tasks)) 0

  cancel_found : ℕ → String → Option (Task P R) → TaskQueue P R → TaskQueue P R × Bool
  cancel_found now task_id none q = (q, false)
  cancel_found now task_id (some task) q = if is_terminal task.status then (q, false) else (
    record q {
      tasks = insert task_id (record task { status = cancelled; finished_at = some now }) q.tasks;
      running_tasks = without task_id q.running_tasks;
    },
    true,
  )

  unfoldable pub cancel_task : ℕ → String → Option String → TaskQueue P R → TaskQueue P R × Bool
  unfolding cancel_found get_task
  cancel_task now task_id user q = cancel_found now task_id (get_task task_id user q) q

  unfoldable pub update_task_progress : String → Percent → TaskQueue P R → TaskQueue P R
  unfolding clamp_percent
  update_task_progress task_id p q = elim (lookup task_id q.tasks) [
    | none ↦ q
    | some task ↦ record q {
      tasks = insert task_id (record task { progress_percent = clamp_percent p }) q.tasks;
    }
  ]

  -- A queue that was stopped while it waited drops the identifier that it got.
  dequeue_from : List String → TaskQueue P R → TaskQueue P R
  dequeue_from [] q = q
  dequeue_from (task_id ∷ rest) q =
      if q.is_running
      then record q { queue = rest; running_tasks = add_key task_id q.running_tasks }
      else record q { queue = rest }

  -- One round of `_process_queue_loop`.
  unfoldable pub dequeue : TaskQueue P R → TaskQueue P R
  unfolding dequeue_from
  dequeue q = dequeue_from q.queue q

  begin_found : ℕ → String → Option (Task P R) → TaskQueue P R → TaskQueue P R
  begin_found now task_id none q = q
  begin_found now task_id (some task) q =
      if same_status task.status cancelled || leb q.permits 0 then q else record q {
        tasks =
            insert task_id
              (record task { status = running; started_at = some now; progress_percent = 10 })
              q.tasks;
        permits = q.permits - 1;
        executing = task_id ∷ q.executing;
      }

  -- The start of `_execute_single_task`, up to the await of the handler. Without a permit the
  -- coroutine stays where it is.
  unfoldable pub execute_begin : ℕ → String → TaskQueue P R → TaskQueue P R
  unfolding begin_found
  execute_begin now task_id q = begin_found now task_id (lookup task_id q.tasks) q

  -- The `try` around the handler; a name with no handler is a RuntimeError.
  end_status : Outcome R → Task P R → Task P R
  end_status (returned r) task = record task {
    result = some r;
    status = completed;
    progress_percent = 100;
  }
  end_status was_cancelled task = record task { status = cancelled }
  end_status (raised e) task = record task { status = failed; error = some e }

  finish_found : ℕ → String → Outcome R → Option (Task P R) → TaskQueue P R → TaskQueue P R
  unfolding end_status
  finish_found now task_id outcome none q = q
  finish_found now task_id outcome (some task) q =
      let done =
        end_status
          (if mem task.name q.handlers
            then outcome
            else raised (append "No handler registered for task '" (append task.name "'")))
          task in
      record q {
        tasks = insert task_id (record done { finished_at = some now }) q.tasks;
        running_tasks = without task_id q.running_tasks;
        permits = q.permits + 1;
        executing = erase_first task_id q.executing;
      }

  -- The rest of `_execute_single_task`, with its `finally` and the release of the semaphore.
  unfoldable pub execute_end : ℕ → String → Outcome R → TaskQueue P R → TaskQueue P R
  unfolding finish_found
  execute_end now task_id outcome q = finish_found now task_id outcome (lookup task_id q.tasks) q

  unfoldable pub get_stats : TaskQueue P R → Stats
  get_stats q =
      let of_status = λ (s : Status). count (λ t. same_status t.status s) (values q.tasks) in
      record {
        active_workers = length q.running_tasks;
        total_tasks = length q.tasks;
        pending_tasks = of_status pending;
        running_count = of_status running;
        completed_tasks = of_status completed;
        failed_tasks = of_status failed;
        cancelled_tasks = of_status cancelled;
      }
