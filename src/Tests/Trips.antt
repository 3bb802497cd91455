-- ===== src/Tests/Trips.antt =====
-- Runs of the workflow graph and of the travel service.
use multi_ai_agent.Common.{
  String, true, false, none, some, List, [], ◌∷◌, ◌≡◌, ◌≢◌, ◌⊎◌, refl, if◌then◌else◌,
}
use multi_ai_agent.Common.Dict.{lookup}
use multi_ai_agent.Store.{no_pool, empty_store}
use multi_ai_agent.Supervisor.{TripConstraints, is_in}
use multi_ai_agent.Workflow.{
  running, AgentOutput, TravelState, Specialist, flight, hotel, weather, agent_name, result_of,
  Outcome, returned, raised, was_cancelled, Outcomes, parallel_specialists_node, Review, answer,
  final_node, human_approval_node,
}
use multi_ai_agent.Graph.{
  human_approval, Agents, Checkpoint, start_graph, resume_graph, run_node, next_node,
}
use multi_ai_agent.Graph.Runs.{StartOutcome, start_graph_outcome}
use multi_ai_agent.Workflow.Specialists.{text_of, specialists_isolated}
use multi_ai_agent.Travel.{
  TravelService, payload, Env, resume_travel_plan, is_expired, serialize_graph_result,
}
use multi_ai_agent.Builders.{Response, build_response}
use multi_ai_agent.Travel.Approvals.{
  Op, executes, run_ops, MayRun, first_answer_final, resume_sound,
}

abbrev rome : TripConstraints
rome = record {
  destination = "Rome";
  origin = "Oslo";
  duration = "3";
  budget = "";
  travel_style = "";
  special_preferences = [];
}

abbrev found : String → AgentOutput
found text = record {
  agent_name = "agent";
  status = "success";
  result = text;
  confidence = 90;
  sources = [];
  warnings = [];
}

abbrev asked : TravelState
asked = record {
  messages = "Rome?" ∷ [];
  user_query = "Rome?";
  user_id = none;
  thread_id = "t1";
  run_id = "run_1";
  status = running;
  guardrail_allowed = true;
  guardrail_reason = "";
  selected_agents = "flight_agent" ∷ "hotel_agent" ∷ "budget_agent" ∷ [];
  trip_constraints = rome;
  supervisor_reasoning = "";
  flight_results = "";
  hotel_results = "";
  weather_results = "";
  budget_results = "";
  itinerary = "";
  structured_outputs = [];
  evidence_items = [];
  critic_report = none;
  approval_request = "";
  approved = false;
  human_feedback = "";
  final_response = "";
}

abbrev outcomes_of : Specialist → Outcome
outcomes_of flight = raised "no seats"
outcomes_of hotel = returned (found "Hotel Roma")
outcomes_of weather = returned (found "sunny")

abbrev outcomes : Outcomes
outcomes = record { of = outcomes_of; budget = returned (found "900 USD") }

abbrev plain : String → String
plain x = x

abbrev agents : Agents
agents = record {
  allowed = true;
  reason = "";
  routing = record {
    selected_agents = "flight_agent" ∷ "hotel_agent" ∷ [];
    trip_constraints = rome;
    reasoning = "";
  };
  outcomes = outcomes;
  report = record {
    is_valid = true;
    score = 90;
    violations = [];
    recommendations = [];
    requires_retry = false;
    retry_tasks = [];
  };
  draft = found "Day 1: Forum";
  final_res = "Enjoy Rome";
  strip = plain;
  sanitize_output = plain;
}

start_graph_outcome_example : StartOutcome agents asked (start_graph agents asked)
start_graph_outcome_example = start_graph_outcome agents asked

abbrev drafted : Checkpoint
drafted = record {
  values = record asked { itinerary = "Day 1: Forum" };
  next = some human_approval;
}

abbrev yes : Review
yes = answer true "good"

flight_ends : outcomes_of flight ≢ was_cancelled
flight_ends e = cc

hotel_ends : outcomes_of hotel ≢ was_cancelled
hotel_ends e = cc

weather_ends : outcomes_of weather ≢ was_cancelled
weather_ends e = cc

specialists_isolated_example :
    (t : TravelState) × (parallel_specialists_node outcomes asked ≡ some t)
    × ((a : Specialist)
        → result_of a t ≡ (
            if is_in asked.selected_agents (agent_name a)
            then text_of (outcomes_of a)
            else result_of a asked))
    × (t.budget_results ≡ (if is_in asked.selected_agents "budget_agent" then "900 USD" else ""))
    × (t.itinerary ≡ "")
specialists_isolated_example =
    specialists_isolated outcomes asked (found "900 USD") refl
      (flight_ends, hotel_ends, weather_ends)

abbrev env : Env
env = record {
  strip = plain;
  now = 100;
  later = 120;
  fresh_thread = "aa";
  fresh_run = "bb";
  read = no_pool;
  write = no_pool;
  ttl = 3600;
}

abbrev paused : TravelService
paused = record {
  approval_timestamps = ("t1", 90) ∷ [];
  approval_history = [];
  run_store = [];
  checkpoints = ("t1", drafted) ∷ [];
  store = empty_store;
}

resume_sound_example :
    ((resume_travel_plan env agents "t1" true "good" none paused).0.checkpoints
      ≡ paused.checkpoints)
    ⊎ MayRun env "t1" none paused
resume_sound_example = resume_sound env agents "t1" "good" true none paused

abbrev reviewed : TravelState
reviewed = final_node plain "Enjoy Rome" (human_approval_node plain yes drafted.values)

abbrev first_reply : Response
first_reply = build_response none false "t1" "bb" reviewed

abbrev another_plan : List Op
another_plan = executes env agents "Paris?" (some "t1") none ∷ []

first_answer_final_example :
    let s' = run_ops another_plan (resume_travel_plan env agents "t1" true "good" none paused).0 in
    ((resume_travel_plan env agents "t1" false "no" none s').1 ≡ payload first_reply)
    × ((resume_travel_plan env agents "t1" false "no" none s').0.checkpoints ≡ s'.checkpoints)
unfolding resume_travel_plan lookup is_expired resume_graph run_node next_node build_response
    serialize_graph_result final_node human_approval_node
first_answer_final_example =
    first_answer_final env env agents agents "t1" "good" "no" true false none none another_plan
      paused first_reply refl refl
