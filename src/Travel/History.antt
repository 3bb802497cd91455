-- ===== src/Travel/History.antt =====
-- The answers that the service remembers for its threads, under each of its operations.
use text.Mathlib.TextPositions.{eq_refl}
use multi_ai_agent.Common.{
  ℕ, String, Bool, true, false, not, ◌&&◌, Option, none, some, ◌≡◌, refl, ◌∙◌, sym, ap, inl, inr,
  arith, eq_iff, Bool-cases, Option-cases, is_some,
}
use multi_ai_agent.Common.Dict.{lookup, insert, lookup-insert}
use multi_ai_agent.Workflow.{TravelState, answer}
use multi_ai_agent.Graph.{
  Agents, Checkpoint, Walk, stopped, crashed, out_of_fuel, start_graph, resume_graph,
}
use multi_ai_agent.Travel.{
  TravelService, Answer, http, payload, Env, claim_thread, initial_state, merge_input, mark_pending,
  finish_start, run_plan, run_claimed, thread_or_fresh, execute_travel_plan, is_finished,
  is_pending, is_expired, remember, forget_pending, finish_resume, resume_checkpoint, resume_owned,
  check_owner, serialize_graph_result,
}
use multi_ai_agent.Builders.{Response}

claim-history :
    (e : Env) (thread : String) (user : Option String) (s : TravelService)
    → (claim_thread e thread user s).0.approval_history ≡ s.approval_history
unfolding claim_thread
claim-history e thread user s = ground arith

start-history :
    (e : Env) (thread : String) (w : Walk) (s : TravelService)
    → (finish_start e thread w s).0.approval_history ≡ s.approval_history
unfolding finish_start mark_pending serialize_graph_result
start-history e thread (stopped c) s = ground arith
start-history e thread (crashed c) s = refl
start-history e thread out_of_fuel s = refl

plan-history :
    (e : Env) (a : Agents) (thread : String) (input : Option TravelState) (s : TravelService)
    → (run_plan e a thread input s).0.approval_history ≡ s.approval_history
unfolding run_plan
plan-history e a thread none s = refl
plan-history e a thread (some input) s =
    start-history e thread (start_graph a (merge_input (lookup thread s.checkpoints) input)) s

claimed-history :
    (e : Env) (a : Agents) (input thread : String) (user : Option String) (c : TravelService × Bool)
    → (run_claimed e a input thread user c).0.approval_history ≡ c.0.approval_history
unfolding run_claimed
claimed-history e a input thread user (s, false) = refl
claimed-history e a input thread user (s, true) =
    plan-history e a thread (initial_state e input thread user) s

pub execute-history :
    (e : Env) (a : Agents) (input : String) (thread_id user : Option String) (s : TravelService)
    → (execute_travel_plan e a input thread_id user s).0.approval_history ≡ s.approval_history
unfolding execute_travel_plan
execute-history e a input thread_id user s =
    let thread = thread_or_fresh e thread_id in
    claimed-history e a input thread user (claim_thread e thread user s)
    ∙ claim-history e thread user s

pub check-history :
    (e : Env) (thread : String) (user : Option String) (s : TravelService)
    → ((check_owner e thread user s).0.approval_history ≡ s.approval_history)
      × ((check_owner e thread user s).0.checkpoints ≡ s.checkpoints)
      × ((check_owner e thread user s).0.approval_timestamps ≡ s.approval_timestamps)
unfolding check_owner
check-history e thread user s = ground arith

-- A call that the thread's first answer answers.
pub owned-remembered :
    (e : Env) (a : Agents) (thread : String) (approve : Bool) (feedback : String)
    (s : TravelService) (r : Response)
    → lookup thread s.approval_history ≡ some r
    → resume_owned e a thread approve feedback s ≡ (s, payload r)
unfolding resume_owned
owned-remembered e a thread approve feedback s r h = rw (h, resume_owned) refl

-- The ways in which a resumption whose caller may make it can go.
pub data Resumed (e : Env) (a : Agents) (thread : String) (approve : Bool) (feedback : String)
    (s : TravelService) : TravelService × Answer → Type 0 where
  remembered :
      (r : Response)
      → lookup thread s.approval_history ≡ some r
      → Resumed e a thread approve feedback s (s, payload r)
  turned_down : (code : ℕ) → Resumed e a thread approve feedback s (s, http code)
  replayed :
      (c : Checkpoint)
      → lookup thread s.approval_history ≡ none
      → Resumed e a thread approve feedback s
          (remember thread (serialize_graph_result none false thread e.fresh_run c.values s))
  ran :
      (c : Checkpoint)
      → lookup thread s.approval_history ≡ none
      → lookup thread s.checkpoints ≡ some c
      → is_pending c.next ≡ true
      → is_expired e (lookup thread s.approval_timestamps) ≡ false
      → Resumed e a thread approve feedback s
          (finish_resume e thread (resume_graph a (answer approve (e.strip feedback)) c) s)

checkpoint-Resumed :
    (e : Env) (a : Agents) (thread : String) (approve : Bool) (feedback : String) (c : Checkpoint)
    (s : TravelService)
    → lookup thread s.approval_history ≡ none
    → lookup thread s.checkpoints ≡ some c
    → Resumed e a thread approve feedback s
        (resume_checkpoint e a thread approve feedback (some c) s)
unfolding resume_checkpoint
checkpoint-Resumed e a thread approve feedback c s fresh there =
    elim (Bool-cases (not (is_some c.next) && is_finished c.values.status)) [
      | inl finished ↦ rw finished (replayed c fresh)
      | inr open_still ↦ rw open_still (elim (Bool-cases (is_pending c.next)) [
        | inr idle ↦ rw idle (turned_down 400)
        | inl waits ↦
            rw waits (elim (Bool-cases (is_expired e (lookup thread s.approval_timestamps))) [
              | inl late ↦ rw late (turned_down 410)
              | inr in_time ↦ rw in_time (ran c fresh there waits in_time)
            ])
      ])
    ]

pub owned-Resumed :
    (e : Env) (a : Agents) (thread : String) (approve : Bool) (feedback : String)
    (s : TravelService)
    → Resumed e a thread approve feedback s (resume_owned e a thread approve feedback s)
unfolding resume_owned
owned-Resumed e a thread approve feedback s =
    elim (Option-cases (lookup thread s.approval_history)) [
      | inr (r, h) ↦ rw (owned-remembered e a thread approve feedback s r h) (remembered r h)
      | inl fresh ↦
          rw (fresh, resume_owned)
            (elim (Option-cases (lookup thread s.checkpoints)) [
              | inl gone ↦ rw (gone, resume_checkpoint) (turned_down 404)
              | inr (c, there) ↦
                  rw there (checkpoint-Resumed e a thread approve feedback c s fresh there)
            ])
    ]

remember_lem :
    (thread : String) (p : TravelService × Response) (r : Response)
    → (remember thread p).1 ≡ payload r
    → lookup thread (remember thread p).0.approval_history ≡ some r
unfolding remember
remember_lem thread (s, q) r h = let e : q ≡ r = cc in simp (lookup-insert, eq_refl) (ap some e)

forget_pending_lem :
    (thread : String) (p : TravelService × Answer)
    → ((forget_pending thread p).0.approval_history ≡ p.0.approval_history)
      × ((forget_pending thread p).1 ≡ p.1)
unfolding forget_pending
forget_pending_lem thread (s, a) = (refl, refl)

finish-remembers :
    (e : Env) (thread : String) (w : Walk) (s : TravelService) (r : Response)
    → (finish_resume e thread w s).1 ≡ payload r
    → lookup thread (finish_resume e thread w s).0.approval_history ≡ some r
unfolding finish_resume
finish-remembers e thread (stopped c) s r h =
    let p =
      serialize_graph_result none (is_some c.next) thread e.fresh_run c.values
        (record s { checkpoints = insert thread c s.checkpoints }) in
    let (kept, same) = forget_pending_lem thread (remember thread p) in
    rw kept (remember_lem thread p r (sym same ∙ h))
finish-remembers e thread (crashed c) s r h = cc
finish-remembers e thread out_of_fuel s r h = cc

-- What was answered with a payload is remembered.
pub Resumed-remembers :
    (e : Env) (a : Agents) (thread : String) (approve : Bool) (feedback : String)
    (s : TravelService) (result : TravelService × Answer) (r : Response)
    → Resumed e a thread approve feedback s result
    → result.1 ≡ payload r
    → lookup thread result.0.approval_history ≡ some r
Resumed-remembers e a thread approve feedback s _ r (remembered q there) h =
    let same : q ≡ r = cc in there ∙ ap some same
Resumed-remembers e a thread approve feedback s _ r (turned_down code) h = cc
Resumed-remembers e a thread approve feedback s _ r (replayed c fresh) h =
    remember_lem thread (serialize_graph_result none false thread e.fresh_run c.values s) r h
Resumed-remembers e a thread approve feedback s _ r (ran c fresh there waits in_time) h =
    finish-remembers e thread (resume_graph a (answer approve (e.strip feedback)) c) s r h

remember-keeps :
    (thread k : String) (p : TravelService × Response) (r : Response)
    → lookup thread p.0.approval_history ≡ none
    → lookup k p.0.approval_history ≡ some r
    → lookup k (remember thread p).0.approval_history ≡ some r
unfolding remember
remember-keeps thread k (s, q) r fresh h =
    ground (arith, fresh, h, eq_iff thread k, lookup-insert thread k q s.approval_history)

-- The history of every thread that has an answer is kept.
finish-keeps :
    (e : Env) (thread k : String) (w : Walk) (s : TravelService) (r : Response)
    → lookup thread s.approval_history ≡ none
    → lookup k s.approval_history ≡ some r
    → lookup k (finish_resume e thread w s).0.approval_history ≡ some r
unfolding finish_resume serialize_graph_result
finish-keeps e thread k (stopped c) s r fresh h =
    let p =
      serialize_graph_result none (is_some c.next) thread e.fresh_run c.values
        (record s { checkpoints = insert thread c s.checkpoints }) in
    rw (forget_pending_lem thread (remember thread p)).0 (remember-keeps thread k p r fresh h)
finish-keeps e thread k (crashed c) s r fresh h = h
finish-keeps e thread k out_of_fuel s r fresh h = h

pub Resumed-keeps :
    (e : Env) (a : Agents) (thread k : String) (approve : Bool) (feedback : String)
    (s : TravelService) (result : TravelService × Answer) (r : Response)
    → Resumed e a thread approve feedback s result
    → lookup k s.approval_history ≡ some r
    → lookup k result.0.approval_history ≡ some r
unfolding serialize_graph_result
Resumed-keeps e a thread k approve feedback s _ r (remembered q there) h = h
Resumed-keeps e a thread k approve feedback s _ r (turned_down code) h = h
Resumed-keeps e a thread k approve feedback s _ r (replayed c fresh) h =
    remember-keeps thread k (serialize_graph_result none false thread e.fresh_run c.values s) r
      fresh h
Resumed-keeps e a thread k approve feedback s _ r (ran c fresh there waits in_time) h =
    finish-keeps e thread k (resume_graph a (answer approve (e.strip feedback)) c) s r fresh h
