-- ===== src/Queue/Lifecycle.antt =====
-- The steps of a task queue from one start to the next, in any order, and what they keep.
use multi_ai_agent.Common.{
  ℕ, ◌+◌, String, Bool, true, false, Option, none, some, List, [], ◌∷◌, ◌++◌, arith, ◌≡◌, ap, ◌∙◌,
  refl, sym, inl, inr, str_eq, eq_iff, length, if◌then◌else◌, Option-cases,
}
use mathlib.Core.Path.{subst}
use multi_ai_agent.Common.Dict.{Dict, lookup, insert, lookup-insert}
use multi_ai_agent.Queue.{
  Status, running, cancelled, Task, TaskQueue, Outcome, submit_task, cancel_task,
  update_task_progress, Percent, clamp_percent, start, stop, dequeue, dequeue_from, execute_begin,
  execute_end, finish_found, without, erase_first, mem, add_key,
}

module _ {P R : Type 0} where
  -- Identifiers are fresh, and a coroutine ends only if it is inside the semaphore. A queue that runs
  -- may be started again, which does nothing; one that was stopped is not, since that makes a new
  -- semaphore, while handlers may still be inside the old one.
  pub data Step : TaskQueue P R → TaskQueue P R → Type 0 where
    submitted :
        (q q' : TaskQueue P R) (now : ℕ) (task_id name : String) (payload : P)
        (user : Option String) (t : Task P R)
        → lookup task_id q.tasks ≡ none
        → submit_task now task_id name payload user q ≡ some (q', t)
        → Step q q'
    cancels :
        (q : TaskQueue P R) (now : ℕ) (task_id : String) (user : Option String)
        → Step q (cancel_task now task_id user q).0
    progresses :
        (q : TaskQueue P R) (task_id : String) (p : Percent)
        → Step q (update_task_progress task_id p q)
    starts :
        (q : TaskQueue P R) (max_concurrent : ℕ)
        → q.is_running ≡ true
        → Step q (start max_concurrent q)
    stops : (q : TaskQueue P R) → Step q (stop q)
    dequeues : (q : TaskQueue P R) → Step q (dequeue q)
    begins : (q : TaskQueue P R) (now : ℕ) (task_id : String) → Step q (execute_begin now task_id q)
    ends :
        (q : TaskQueue P R) (now : ℕ) (task_id : String) (o : Outcome R)
        → mem task_id q.executing ≡ true
        → Step q (execute_end now task_id o q)

  pub data Steps : TaskQueue P R → TaskQueue P R → Type 0 where
    halt : {q : TaskQueue P R} → Steps q q
    then_ : {q r s : TaskQueue P R} → Step q r → Steps r s → Steps q s

mem-without :
    (k j : String) (ks : List String)
    → mem j (without k ks) ≡ (if str_eq k j then false else mem j ks)
unfolding without
mem-without k j [] = ground arith
mem-without k j (x ∷ ks) = ground (arith, mem-without k j ks, eq_iff x k, eq_iff x j, eq_iff k j)

mem-append :
    (j k : String) (ks : List String)
    → mem j (ks ++ k ∷ []) ≡ (if str_eq k j then true else mem j ks)
mem-append j k [] = ground arith
mem-append j k (x ∷ ks) = ground (arith, mem-append j k ks)

mem-add_key : (j k : String) (ks : List String) → mem j ks ≡ true → mem j (add_key k ks) ≡ true
mem-add_key j k ks h = ground (arith, mem-append j k ks)

mem-add_key_self : (k : String) (ks : List String) → mem k (add_key k ks) ≡ true
mem-add_key_self k ks = ground (arith, mem-append k k ks, eq_iff k k)

mem-erase_first :
    (k j : String) (ks : List String) → mem j ks ≡ false → mem j (erase_first k ks) ≡ false
unfolding erase_first
mem-erase_first k j [] h = refl
mem-erase_first k j (x ∷ ks) h = ground (arith, mem-erase_first k j ks)

module _ {P R : Type 0} where
  -- The coroutines inside the semaphore and its free permits.
  abbrev HasPermits : ℕ → TaskQueue P R → Type 0
  HasPermits n q = q.permits + length q.executing ≡ n

  abbrev pub status_in : Option (Task P R) → Option Status
  status_in none = none
  status_in (some t) = some t.status

  abbrev pub status_of : String → TaskQueue P R → Option Status
  status_of k q = status_in (lookup k q.tasks)

  -- Cancelled, with no coroutine inside the semaphore, and, while the queue runs, still among the
  -- running tasks.
  pub record IsDead (k : String) (q : TaskQueue P R) : Type 0 where
    pub was_cancelled : status_of k q ≡ some cancelled
    pub not_executing : mem k q.executing ≡ false
    pub still_listed : q.is_running ≡ true → mem k q.running_tasks ≡ true

  submit-IsDead :
      (k : String) (q q' : TaskQueue P R) (now : ℕ) (task_id name : String) (payload : P)
      (user : Option String) (t : Task P R)
      → lookup task_id q.tasks ≡ none
      → submit_task now task_id name payload user q ≡ some (q', t)
      → IsDead k q
      → IsDead k q'
  unfolding submit_task
  submit-IsDead k q q' now task_id name payload user t fresh e d =
      ground (arith, eq_iff task_id k, lookup-insert task_id k t q.tasks)

  cancel-IsDead :
      (k : String) (q : TaskQueue P R) (now : ℕ) (task_id : String) (user : Option String)
      → IsDead k q
      → IsDead k (cancel_task now task_id user q).0
  unfolding cancel_task
  cancel-IsDead k q now task_id user d = elim (Option-cases (lookup task_id q.tasks)) [
    | inl gone ↦ ground arith
    | inr there ↦ ground (
      arith,
      eq_iff task_id k,
      mem-without task_id k q.running_tasks,
      lookup-insert task_id k (record there.0 { status = cancelled; finished_at = some now })
          q.tasks,
    )
  ]

  progress-IsDead :
      (k : String) (q : TaskQueue P R) (task_id : String) (p : Percent)
      → IsDead k q
      → IsDead k (update_task_progress task_id p q)
  unfolding update_task_progress
  progress-IsDead k q task_id p d = elim (Option-cases (lookup task_id q.tasks)) [
    | inl gone ↦ ground arith
    | inr there ↦ ground (
      arith,
      eq_iff task_id k,
      lookup-insert task_id k (record there.0 { progress_percent = clamp_percent p }) q.tasks,
    )
  ]

  dequeue_from-IsDead :
      (k : String) (ids : List String) (q : TaskQueue P R)
      → IsDead k q
      → IsDead k (dequeue_from ids q)
  unfolding dequeue_from
  dequeue_from-IsDead k [] q d = d
  dequeue_from-IsDead k (x ∷ ids) q d = ground (arith, mem-add_key k x q.running_tasks)

  dequeue-IsDead : (k : String) (q : TaskQueue P R) → IsDead k q → IsDead k (dequeue q)
  unfolding dequeue
  dequeue-IsDead k q d = dequeue_from-IsDead k q.queue q d

  begin-IsDead :
      (k : String) (q : TaskQueue P R) (now : ℕ) (task_id : String)
      → IsDead k q
      → IsDead k (execute_begin now task_id q)
  unfolding execute_begin
  begin-IsDead k q now task_id d = elim (Option-cases (lookup task_id q.tasks)) [
    | inl gone ↦ ground arith
    | inr there ↦ ground (
      arith,
      eq_iff task_id k,
      lookup-insert task_id k
          (record there.0 { status = running; started_at = some now; progress_percent = 10 })
          q.tasks,
    )
  ]

  lookup_elsewhere :
      (k j : String) (t : Task P R) (d : Dict (Task P R))
      → str_eq j k ≡ false
      → lookup k (insert j t d) ≡ lookup k d
  lookup_elsewhere k j t d h = simp (lookup-insert, h)

  finish-IsDead :
      (k : String) (q : TaskQueue P R) (now : ℕ) (task_id : String) (o : Outcome R)
      (found : Option (Task P R))
      → str_eq task_id k ≡ false
      → IsDead k q
      → IsDead k (finish_found now task_id o found q)
  unfolding finish_found
  finish-IsDead k q now task_id o none h d = d
  finish-IsDead k q now task_id o (some t) h d = record {
    was_cancelled = ap status_in (lookup_elsewhere k task_id _ q.tasks h) ∙ d.was_cancelled;
    not_executing = mem-erase_first task_id k q.executing d.not_executing;
    still_listed = λ on. rw (mem-without, h) (d.still_listed on);
  }

  end-IsDead :
      (k : String) (q : TaskQueue P R) (now : ℕ) (task_id : String) (o : Outcome R)
      → mem task_id q.executing ≡ true
      → IsDead k q
      → IsDead k (execute_end now task_id o q)
  unfolding execute_end
  end-IsDead k q now task_id o m d =
      let differ : str_eq task_id k ≡ false = ground (arith, eq_iff task_id k) in
      finish-IsDead k q now task_id o (lookup task_id q.tasks) differ d

  chosen : (b : Bool) (x y : TaskQueue P R) → b ≡ true → (if b then x else y) ≡ x
  chosen b x y e = rw e refl

  start-IsDead :
      (k : String) (m : ℕ) (q : TaskQueue P R)
      → q.is_running ≡ true
      → IsDead k q
      → IsDead k (start m q)
  unfolding start
  start-IsDead k m q on d =
      subst (IsDead k)
        (sym (chosen q.is_running q (record q { is_running = true; permits = m }) on)) d

  stop-IsDead : (k : String) (q : TaskQueue P R) → IsDead k q → IsDead k (stop q)
  unfolding stop
  stop-IsDead k q d = record {
    was_cancelled = d.was_cancelled;
    not_executing = d.not_executing;
    still_listed = λ on. absurd (ground (arith, on));
  }

  Step-IsDead : (k : String) {q r : TaskQueue P R} → Step q r → IsDead k q → IsDead k r
  Step-IsDead k (submitted q q' now i name payload user t fresh e) d =
      submit-IsDead k q q' now i name payload user t fresh e d
  Step-IsDead k (cancels q now i user) d = cancel-IsDead k q now i user d
  Step-IsDead k (progresses q i p) d = progress-IsDead k q i p d
  Step-IsDead k (dequeues q) d = dequeue-IsDead k q d
  Step-IsDead k (starts q m on) d = start-IsDead k m q on d
  Step-IsDead k (stops q) d = stop-IsDead k q d
  Step-IsDead k (begins q now i) d = begin-IsDead k q now i d
  Step-IsDead k (ends q now i o m) d = end-IsDead k q now i o m d

  Steps-IsDead : (k : String) {q r : TaskQueue P R} → Steps q r → IsDead k q → IsDead k r
  Steps-IsDead k halt d = d
  Steps-IsDead k (then_ x s) d = Steps-IsDead k s (Step-IsDead k x d)

  dequeue_from-lists :
      (k : String) (ids rest : List String) (q : TaskQueue P R)
      → ids ≡ k ∷ rest
      → q.is_running ≡ true
      → status_of k q ≡ some cancelled
      → mem k q.executing ≡ false
      → IsDead k (dequeue_from ids q)
  unfolding dequeue_from
  dequeue_from-lists k [] rest q e on c x = cc
  dequeue_from-lists k (i ∷ ids) rest q e on c x =
      let same : i ≡ k = ground arith in
      rw same (ground (arith, mem-add_key_self k q.running_tasks))

  -- A task that was cancelled before its turn comes is taken off the queue all the same: from then
  -- on and up to the next start of the queue, whatever the other operations do, it stays CANCELLED and
  -- never runs, and stays counted among the running tasks until the queue is stopped.
  pub cancelled_task_leaks :
      (k : String) (rest : List String) (q r : TaskQueue P R)
      → q.queue ≡ k ∷ rest
      → q.is_running ≡ true
      → status_of k q ≡ some cancelled
      → mem k q.executing ≡ false
      → Steps (dequeue q) r
      → IsDead k r
  unfolding dequeue
  cancelled_task_leaks k rest q r e on c x s =
      Steps-IsDead k s (dequeue_from-lists k q.queue rest q e on c x)
