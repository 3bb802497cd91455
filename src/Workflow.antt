-- ===== src/Workflow.antt =====
-- tripmate/graph/state.py and tripmate/graph/workflow.py: the state and the nodes of the workflow. A
-- node's dictionary is merged into the state: a key is overwritten, and messages are appended. What the
-- agents answer is an argument; timings are left out.
pub mod Specialists
use Prim.Native.String.{◌++◌ as append}
use multi_ai_agent.Common.{
  ℕ, zero, suc, String, Bool, true, false, not, Option, none, some, List, [], ◌∷◌, ◌++◌, truthy,
  if◌then◌else◌, ◌>>=◌,
}
use multi_ai_agent.Common.Dict.{Dict, insert}
use multi_ai_agent.Supervisor.{TripConstraints, SupervisorRouting, is_in}

pub data Status : Type 0 where
  running blocked waiting_for_approval approved revision_requested completed : Status

pub record Evidence : Type 0 where
  pub source_name : String
  pub verified : Bool

-- StructuredAgentOutput, with the confidence in percent.
pub record AgentOutput : Type 0 where
  pub agent_name : String
  pub status : String
  pub result : String
  pub confidence : ℕ
  pub sources : List Evidence
  pub warnings : List String

pub record CriticReport : Type 0 where
  pub is_valid : Bool
  pub score : ℕ
  pub violations : List String
  pub recommendations : List String
  pub requires_retry : Bool
  pub retry_tasks : List String

pub record TravelState : Type 0 where
  pub messages : List String
  pub user_query : String
  pub user_id : Option String
  pub thread_id : String
  pub run_id : String
  pub status : Status
  pub guardrail_allowed : Bool
  pub guardrail_reason : String
  pub selected_agents : List String
  pub trip_constraints : TripConstraints
  pub supervisor_reasoning : String
  pub flight_results : String
  pub hotel_results : String
  pub weather_results : String
  pub budget_results : String
  pub itinerary : String
  pub structured_outputs : Dict AgentOutput
  pub evidence_items : List Evidence
  pub critic_report : Option CriticReport
  pub approval_request : String
  pub approved : Bool
  pub human_feedback : String
  pub final_response : String

abbrev pub no_agents : List String
no_agents = []

-- `run_guardrail_check` gives the first two arguments, `run_supervisor_routing` the third.
unfoldable pub supervisor_node : Bool → String → SupervisorRouting → TravelState → TravelState
supervisor_node allowed reason routing s =
    if allowed
    then record s {
      status = running;
      guardrail_allowed = true;
      guardrail_reason = reason;
      selected_agents = routing.selected_agents;
      trip_constraints = routing.trip_constraints;
      supervisor_reasoning = routing.reasoning;
      messages = s.messages ++ "Supervisor node routing completed." ∷ [];
    }
    else record s {
      status = blocked;
      guardrail_allowed = false;
      guardrail_reason = reason;
      selected_agents = no_agents;
      supervisor_reasoning = reason;
      final_response = reason;
      messages = s.messages ++ append "Guardrail blocked request: " reason ∷ [];
    }

-- `a or b or c`
abbrev pub first_of : String → String → String
first_of a b = if truthy a then a else b

unfoldable pub guardrail_blocked_node : TravelState → TravelState
guardrail_blocked_node s =
    let reason =
      first_of s.final_response
        (first_of s.guardrail_reason "Request blocked by input guardrail.") in
    record s { status = blocked; final_response = reason; messages = s.messages ++ reason ∷ [] }

pub data Specialist : Type 0 where
  flight hotel weather : Specialist

abbrev pub agent_name : Specialist → String
agent_name flight = "flight_agent"
agent_name hotel = "hotel_agent"
agent_name weather = "weather_agent"

abbrev pub result_of : Specialist → TravelState → String
result_of flight s = s.flight_results
result_of hotel s = s.hotel_results
result_of weather s = s.weather_results

abbrev pub set_result : Specialist → String → TravelState → TravelState
set_result flight r s = record s { flight_results = r }
set_result hotel r s = record s { hotel_results = r }
set_result weather r s = record s { weather_results = r }

-- What `asyncio.gather(..., return_exceptions=True)` has for one agent. A CancelledError is no
-- `Exception`.
pub data Outcome : Type 0 where
  returned : AgentOutput → Outcome
  raised : String → Outcome
  was_cancelled : Outcome

abbrev pub unavailable : String → String
unavailable e = append "Provider unavailable: " e

unfoldable pub degraded : String → String → AgentOutput
degraded name e = record {
  agent_name = name;
  status = "degraded";
  result = unavailable e;
  confidence = 30;
  sources = [];
  warnings = e ∷ [];
}

-- One round of the loop over the results; `none` is the AttributeError of `res.result` on a
-- CancelledError.
unfoldable pub absorb : Specialist → Outcome → TravelState → Option TravelState
unfolding degraded
absorb a (returned out) s = some (
    set_result a out.result (record s {
      structured_outputs = insert (agent_name a) out s.structured_outputs;
      evidence_items = s.evidence_items ++ out.sources;
    }))
absorb a (raised e) s = some (
    set_result a (unavailable e) (record s {
      structured_outputs = insert (agent_name a) (degraded (agent_name a) e) s.structured_outputs;
    }))
absorb a was_cancelled s = none

-- An agent that was not selected is not run.
unfoldable pub absorb_selected :
    List String → Specialist → Outcome → TravelState → Option TravelState
absorb_selected selected a o s = if is_in selected (agent_name a) then absorb a o s else some s

-- The budget agent runs after the others, and what it raises passes through.
add_budget : Outcome → TravelState → Option TravelState
add_budget (returned out) s = some (record s {
  budget_results = out.result;
  structured_outputs = insert "budget_agent" out s.structured_outputs;
  evidence_items = s.evidence_items ++ out.sources;
})
add_budget (raised e) s = none
add_budget was_cancelled s = none

-- What the agents do in one run of the node.
pub record Outcomes : Type 0 where
  pub of : Specialist → Outcome
  pub budget : Outcome

unfoldable pub parallel_specialists_node : Outcomes → TravelState → Option TravelState
unfolding add_budget
parallel_specialists_node o s =
    let selected = s.selected_agents in
    do
      s1 ← absorb_selected selected flight (o.of flight) s
      s2 ← absorb_selected selected hotel (o.of hotel) s1
      s3 ← absorb_selected selected weather (o.of weather) s2
      if is_in selected "budget_agent" then add_budget o.budget s3 else some s3

unfoldable pub critic_node : CriticReport → TravelState → TravelState
critic_node report s = record s { critic_report = some report }

unfoldable pub itinerary_node : AgentOutput → TravelState → TravelState
itinerary_node out s = record s {
  status = waiting_for_approval;
  itinerary = out.result;
  approval_request = "Please review draft itinerary and approve or provide revision feedback.";
  messages = s.messages ++ "Draft itinerary synthesized." ∷ [];
}

-- What the interrupt is resumed with: a dictionary, a bool, or anything else, with its truth and its
-- text.
pub data Review : Type 0 where
  answer : Bool → String → Review
  flag : Bool → Review
  other : Bool → String → Review

abbrev pub is_approval : Review → Bool
is_approval (answer b feedback) = b
is_approval (flag b) = b
is_approval (other b feedback) = b

abbrev pub feedback_of : (String → String) → Review → String
feedback_of strip (answer b feedback) = strip feedback
feedback_of strip (flag b) = ""
feedback_of strip (other b feedback) = strip feedback

unfoldable pub human_approval_node : (String → String) → Review → TravelState → TravelState
human_approval_node strip review s = record s {
  status = if is_approval review then approved else revision_requested;
  approved = is_approval review;
  human_feedback = feedback_of strip review;
  messages = s.messages ++ "Human approval step completed." ∷ [];
}

unfoldable pub final_node : (String → String) → String → TravelState → TravelState
final_node sanitize_output final_res s = record s {
  status = completed;
  final_response = sanitize_output final_res;
  messages = s.messages ++ sanitize_output final_res ∷ [];
}
