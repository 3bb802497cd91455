-- ===== src/Builders.antt =====
-- tripmate/builders: the initial state of a run and the payload of its result.
use multi_ai_agent.Common.{
  String, Bool, true, false, Option, none, some, List, [], ◌∷◌, truthy, if◌then◌else◌,
}
use multi_ai_agent.Common.Dict.{Dict}
use multi_ai_agent.Supervisor.{TripConstraints}
use multi_ai_agent.Store.{or_empty}
use multi_ai_agent.Workflow.{
  TravelState, Status, running, AgentOutput, Evidence, CriticReport, first_of,
}

-- TravelWorkflowStateBuilder.
pub record StateBuilder : Type 0 where
  pub user_query : String
  pub thread_id : Option String
  pub user_id : Option String
  pub run_id : Option String
  pub trip_constraints : TripConstraints
  pub initial_messages : List String

abbrev no_constraints : TripConstraints
no_constraints = record {
  destination = "";
  origin = "";
  duration = "";
  budget = "";
  travel_style = "";
  special_preferences = [];
}

unfoldable pub new_builder : StateBuilder
new_builder = record {
  user_query = "";
  thread_id = none;
  user_id = none;
  run_id = none;
  trip_constraints = no_constraints;
  initial_messages = [];
}

abbrev or_messages : List String → List String → List String
or_messages [] fresh = fresh
or_messages (m ∷ ms) fresh = m ∷ ms

module _ (strip : String → String) where
  -- `none` is the ValueError of an empty query.
  unfoldable pub with_user_query : String → StateBuilder → Option StateBuilder
  with_user_query query b =
      if truthy (strip query)
      then some (record b {
        user_query = strip query;
        initial_messages = or_messages b.initial_messages (strip query ∷ []);
      })
      else none

  -- `x.strip() if x and x.strip() else None`
  unfoldable pub stripped : Option String → Option String
  stripped none = none
  stripped (some x) = if truthy (strip x) then some (strip x) else none

  unfoldable pub with_thread_id : Option String → StateBuilder → StateBuilder
  unfolding stripped
  with_thread_id thread b = record b { thread_id = stripped thread }

  unfoldable pub with_user_id : Option String → StateBuilder → StateBuilder
  unfolding stripped
  with_user_id user b = record b { user_id = stripped user }

  unfoldable pub with_run_id : Option String → StateBuilder → StateBuilder
  unfolding stripped
  with_run_id run b = record b { run_id = stripped run }

-- The two fallbacks are fresh identifiers.
unfoldable pub build_state : String → String → StateBuilder → Option TravelState
build_state fresh_thread fresh_run b =
    if truthy b.user_query
    then some (record {
      messages = b.initial_messages;
      user_query = b.user_query;
      user_id = b.user_id;
      thread_id = first_of (or_empty b.thread_id) fresh_thread;
      run_id = first_of (or_empty b.run_id) fresh_run;
      status = running;
      guardrail_allowed = true;
      guardrail_reason = "";
      selected_agents = [];
      trip_constraints = b.trip_constraints;
      supervisor_reasoning = "";
      flight_results = "";
      hotel_results = "";
      weather_results = "";
      budget_results = "";
      itinerary = "";
      structured_outputs = [];
      evidence_items = [];
      critic_report = none;
      approval_request = "";
      approved = false;
      human_feedback = "";
      final_response = "";
    })
    else none

-- The payload that TravelPlanResponseBuilder builds.
pub record Response : Type 0 where
  pub run_id : String
  pub thread_id : String
  pub status : Status
  pub answer : String
  pub requires_approval : Bool
  pub approval_request : String
  pub flight_results : String
  pub hotel_results : String
  pub weather_results : String
  pub budget_results : String
  pub itinerary : String
  pub selected_agents : List String
  pub trip_constraints : TripConstraints
  pub supervisor_reasoning : String
  pub guardrail_allowed : Bool
  pub guardrail_reason : String
  pub critic_report : Option CriticReport
  pub evidence_items : List Evidence
  pub structured_outputs : Dict AgentOutput
  pub approved : Bool
  pub human_feedback : String

abbrev pub last_message : List String → String
last_message [] = ""
last_message (m ∷ []) = m
last_message (m ∷ n ∷ ms) = last_message (n ∷ ms)

-- The second argument says whether the result carries the interrupt, whose payload repeats the draft
-- and the request of the state.
unfoldable pub build_response : Option String → Bool → String → String → TravelState → Response
build_response run interrupted thread fresh_run s = record {
  run_id = first_of (or_empty run) (first_of s.run_id fresh_run);
  thread_id = thread;
  status = s.status;
  answer = if interrupted then s.itinerary else first_of s.final_response (last_message s.messages);
  requires_approval = interrupted;
  approval_request = s.approval_request;
  flight_results = s.flight_results;
  hotel_results = s.hotel_results;
  weather_results = s.weather_results;
  budget_results = s.budget_results;
  itinerary = s.itinerary;
  selected_agents = s.selected_agents;
  trip_constraints = s.trip_constraints;
  supervisor_reasoning = s.supervisor_reasoning;
  guardrail_allowed = s.guardrail_allowed;
  guardrail_reason = s.guardrail_reason;
  critic_report = s.critic_report;
  evidence_items = s.evidence_items;
  structured_outputs = s.structured_outputs;
  approved = s.approved;
  human_feedback = s.human_feedback;
}
