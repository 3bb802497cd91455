-- ===== src/Travel.antt =====
-- tripmate/services/travel_service.py: a plan is executed up
-- to its review, and resumed with one. The graph's checkpoints, which LangGraph keeps for each
-- thread, are a part of the state; the events that are published, the timings and the token counts
-- are left out.
pub mod History
pub mod Approvals
use Prim.Native.String.{◌++◌ as append}
use multi_ai_agent.Common.{
  ℕ, ◌+◌, ◌-◌, String, Bool, true, false, not, ◌&&◌, ◌||◌, Option, none, some, List, [], ◌∷◌, ◌++◌,
  ltb, leb, str_eq, truthy, is_some, if◌then◌else◌,
}
use multi_ai_agent.Common.Dict.{Dict, lookup, insert, erase}
use multi_ai_agent.Builders.{
  Response, StateBuilder, build_response, build_state, last_message, new_builder, stripped,
  with_run_id, with_thread_id, with_user_id, with_user_query,
}
use multi_ai_agent.Supervisor.{TripConstraints}
use multi_ai_agent.Store.{DataStore, Attempt, or_empty}
use multi_ai_agent.Store.Threads.{register_thread_owner, get_thread_owner}
use multi_ai_agent.Access.{Reply, granted, refused, validate_thread_ownership}
use multi_ai_agent.Workflow.{
  TravelState, Status, running, blocked, waiting_for_approval, approved, revision_requested,
  completed, AgentOutput, Evidence, CriticReport, Review, answer, first_of,
}
use multi_ai_agent.Graph.{
  Agents, Checkpoint, Node, human_approval, Walk, stopped, crashed, out_of_fuel, start_graph,
  resume_graph,
}

-- TravelService, with RUN_STORE, the checkpoints and the data store.
pub record TravelService : Type 0 where
  pub approval_timestamps : Dict ℕ
  pub approval_history : Dict Response
  pub run_store : Dict Response
  pub checkpoints : Dict Checkpoint
  pub store : DataStore

-- An HTTPException by its status, another exception, or the payload.
pub data Answer : Type 0 where
  http : ℕ → Answer
  raised : Answer
  payload : Response → Answer

unfoldable pub serialize_graph_result :
    Option String → Bool → String → String → TravelState → TravelService → TravelService × Response
serialize_graph_result run interrupted thread fresh_run values s =
    let r = build_response run interrupted thread fresh_run values in
    (record s { run_store = insert r.run_id r s.run_store }, r)

-- The clock, the fresh identifiers and what the database answers, in one call of the service.
pub record Env : Type 0 where
  pub strip : String → String
  pub now : ℕ
  pub later : ℕ
  pub fresh_thread : String
  pub fresh_run : String
  pub read : Attempt (Option String)
  pub write : Attempt (Unit {0})
  pub ttl : ℕ

-- `registered_owner and registered_owner != user_id`; `none` is the answer 404.
unfoldable pub claim_thread : Env → String → Option String → TravelService → TravelService × Bool
claim_thread e thread user s =
    if truthy (or_empty user)
    then (let (d, owner) = get_thread_owner e.read thread s.store in
        if truthy (or_empty owner) && not (str_eq (or_empty owner) (or_empty user))
        then (record s { store = d }, false)
        else (
          record s { store = register_thread_owner e.now e.write thread (or_empty user) d },
          true,
        ))
    else (s, true)

unfoldable pub initial_state : Env → String → String → Option String → Option TravelState
initial_state e input thread user = elim (with_user_query e.strip input new_builder) [
  | none ↦ none
  | some b ↦ build_state (append "user_" e.fresh_thread) (append "run_" e.fresh_run) (
      with_run_id e.strip (some (append "run_" e.fresh_run))
        (with_user_id e.strip user (with_thread_id e.strip (some thread) b)))
]

-- The new input is merged into the thread's checkpoint: only the messages add up.
abbrev earlier_messages : Option Checkpoint → List String
earlier_messages none = []
earlier_messages (some c) = c.values.messages

unfoldable pub merge_input : Option Checkpoint → TravelState → TravelState
merge_input c input = record input { messages = earlier_messages c ++ input.messages }

unfoldable pub mark_pending : Env → String → Bool → TravelService → TravelService
mark_pending e thread requires_approval s =
    if requires_approval
    then record s { approval_timestamps = insert thread e.later s.approval_timestamps }
    else s

unfoldable pub finish_start : Env → String → Walk → TravelService → TravelService × Answer
unfolding mark_pending
finish_start e thread (stopped c) s =
    let (s', r) =
      serialize_graph_result (some (append "run_" e.fresh_run)) (is_some c.next) thread e.fresh_run
        c.values (record s { checkpoints = insert thread c s.checkpoints }) in
    (mark_pending e thread r.requires_approval s', payload r)
finish_start e thread (crashed c) s =
    (record s { checkpoints = insert thread c s.checkpoints }, raised)
finish_start e thread out_of_fuel s = (s, raised)

unfoldable pub run_plan :
    Env → Agents → String → Option TravelState → TravelService → TravelService × Answer
unfolding finish_start
run_plan e a thread none s = (s, raised)
run_plan e a thread (some input) s =
    finish_start e thread (start_graph a (merge_input (lookup thread s.checkpoints) input)) s

unfoldable pub run_claimed :
    Env → Agents → String → String → Option String → TravelService × Bool → TravelService × Answer
run_claimed e a input thread user (s, false) = (s, http 404)
run_claimed e a input thread user (s, true) =
    run_plan e a thread (initial_state e input thread user) s

-- `thread_id`, or a fresh one.
abbrev pub thread_or_fresh : Env → Option String → String
thread_or_fresh e thread_id = first_of (or_empty thread_id) (append "thread_" e.fresh_thread)

unfoldable pub execute_travel_plan :
    Env → Agents → String → Option String → Option String → TravelService → TravelService × Answer
unfolding run_claimed
execute_travel_plan e a input thread_id user s =
    let thread = thread_or_fresh e thread_id in
    run_claimed e a input thread user (claim_thread e thread user s)

-- `status in ("APPROVED", "REVISION_REQUESTED", "COMPLETED")`
abbrev pub is_finished : Status → Bool
is_finished approved = true
is_finished revision_requested = true
is_finished completed = true
is_finished _ = false

abbrev pub is_pending : Option Node → Bool
is_pending (some human_approval) = true
is_pending _ = false

-- `created_at and time.time() - created_at > settings.APPROVAL_TTL_SECONDS`
unfoldable pub is_expired : Env → Option ℕ → Bool
is_expired e none = false
is_expired e (some t) = not (leb t 0) && ltb (t + e.ttl) e.now

unfoldable pub remember : String → TravelService × Response → TravelService × Answer
remember thread (s, r) =
    (record s { approval_history = insert thread r s.approval_history }, payload r)

unfoldable pub forget_pending : String → TravelService × Answer → TravelService × Answer
forget_pending thread (s, a) =
    (record s { approval_timestamps = erase thread s.approval_timestamps }, a)

unfoldable pub finish_resume : Env → String → Walk → TravelService → TravelService × Answer
unfolding remember forget_pending
finish_resume e thread (stopped c) s = forget_pending thread (
    remember thread (
      serialize_graph_result none (is_some c.next) thread e.fresh_run c.values
        (record s { checkpoints = insert thread c s.checkpoints })))
finish_resume e thread (crashed c) s =
    (record s { checkpoints = insert thread c s.checkpoints }, raised)
finish_resume e thread out_of_fuel s = (s, raised)

unfoldable pub resume_checkpoint :
    Env
    → Agents
    → String
    → Bool
    → String
    → Option Checkpoint
    → TravelService
    → TravelService × Answer
unfolding finish_resume remember
resume_checkpoint e a thread approve feedback none s = (s, http 404)
resume_checkpoint e a thread approve feedback (some c) s =
    if not (is_some c.next) && is_finished c.values.status
    then remember thread (serialize_graph_result none false thread e.fresh_run c.values s)
    else (if not (is_pending c.next)
        then (s, http 400)
        else (if is_expired e (lookup thread s.approval_timestamps)
            then (s, http 410)
            else finish_resume e thread (resume_graph a (answer approve (e.strip feedback)) c) s))

unfoldable pub resume_owned :
    Env → Agents → String → Bool → String → TravelService → TravelService × Answer
unfolding resume_checkpoint
resume_owned e a thread approve feedback s = elim (lookup thread s.approval_history) [
  | some r ↦ (s, payload r)
  | none ↦ resume_checkpoint e a thread approve feedback (lookup thread s.checkpoints) s
]

-- `if user_id: await validate_thread_ownership(thread_id, user_id)`
unfoldable pub check_owner :
    Env → String → Option String → TravelService → TravelService × Reply Bool
check_owner e thread user s =
    if truthy (or_empty user)
    then (let (d, reply) = validate_thread_ownership e.read thread user s.store in
        (record s { store = d }, reply))
    else (s, granted true)

unfoldable pub if_granted :
    Env → Agents → String → Bool → String → TravelService × Reply Bool → TravelService × Answer
if_granted e a thread approve feedback (s, refused code) = (s, http code)
if_granted e a thread approve feedback (s, granted b) = resume_owned e a thread approve feedback s

unfoldable pub resume_travel_plan :
    Env → Agents → String → Bool → String → Option String → TravelService → TravelService × Answer
unfolding check_owner if_granted resume_owned
resume_travel_plan e a thread approve feedback user s =
    if_granted e a thread approve feedback (check_owner e thread user s)
