-- ===== src/Queue/Access.antt =====
-- Who can see and cancel a task.
use multi_ai_agent.Common.{
  ℕ, String, true, false, Option, none, some, arith, ◌≡◌, refl, ◌⊎◌, inl, inr, str_eq, eq_iff,
  truthy, if◌then◌else◌, Bool-cases, Option-cases,
}
use multi_ai_agent.Common.Dict.{lookup, lookup-insert}
use multi_ai_agent.Queue.{
  cancelled, is_terminal, Task, TaskQueue, or_empty, get_task, cancel_task, cancel_found,
  execute_begin,
}

module _ {P R : Type 0} where
  -- A caller who names a user gets a task only if the task has no owner or that user as its owner.
  pub get_task_owned :
      (task_id user : String) (q : TaskQueue P R) (t : Task P R)
      → truthy user ≡ true
      → get_task task_id (some user) q ≡ some t
      → (truthy (or_empty t.user_id) ≡ false) ⊎ (or_empty t.user_id ≡ user)
  unfolding get_task
  get_task_owned task_id user q t h e = elim (Option-cases (lookup task_id q.tasks)) [
    | inl gone ↦ ground arith
    | inr there ↦ ground (arith, eq_iff (or_empty t.user_id) user)
  ]

  cancel_found_lem :
      (now : ℕ) (task_id : String) (o : Option (Task P R)) (q : TaskQueue P R)
      → let (q', answer) = cancel_found now task_id o q in
        ((answer ≡ false) × (q' ≡ q))
        ⊎ ((answer ≡ true)
            × ((t : Task P R) × (o ≡ some t)
                × (is_terminal t.status ≡ false)
                × ((k : String)
                    → lookup k q'.tasks ≡ (
                        if str_eq task_id k
                        then some (record t { status = cancelled; finished_at = some now })
                        else lookup k q.tasks))))
  unfolding cancel_found
  cancel_found_lem now task_id none q = inl (refl, refl)
  cancel_found_lem now task_id (some task) q = elim (Bool-cases (is_terminal task.status)) [
    | inl ended ↦ rw ended (inl (refl, refl))
    | inr live ↦ rw live (
        inr (
          refl,
          (
            task,
            refl,
            live,
            λ k.
                lookup-insert task_id k (record task { status = cancelled; finished_at = some now })
                  q.tasks,
          ),
        ))
  ]

  -- `cancel_task` answers whether it cancelled. Where it did not, the queue is as before; where it
  -- did, the task was visible to the caller and not ended, it is CANCELLED with the time of the
  -- cancellation, and every other task is as before.
  pub cancel_task_lem :
      (now : ℕ) (task_id : String) (user : Option String) (q : TaskQueue P R)
      → let (q', answer) = cancel_task now task_id user q in
        ((answer ≡ false) × (q' ≡ q))
        ⊎ ((answer ≡ true)
            × ((t : Task P R) × (get_task task_id user q ≡ some t)
                × (is_terminal t.status ≡ false)
                × ((k : String)
                    → lookup k q'.tasks ≡ (
                        if str_eq task_id k
                        then some (record t { status = cancelled; finished_at = some now })
                        else lookup k q.tasks))))
  unfolding cancel_task
  cancel_task_lem now task_id user q = cancel_found_lem now task_id (get_task task_id user q) q

  -- A task that is CANCELLED is never started.
  pub begin_cancelled :
      (now : ℕ) (task_id : String) (q : TaskQueue P R) (t : Task P R)
      → lookup task_id q.tasks ≡ some t
      → t.status ≡ cancelled
      → execute_begin now task_id q ≡ q
  unfolding execute_begin
  begin_cancelled now task_id q t h c = ground arith
