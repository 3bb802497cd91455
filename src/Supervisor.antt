-- ===== src/Supervisor.antt =====
-- tripmate/agents/supervisor.py: from a plan to the agents that run. The plan itself is an LLM's
-- answer and an argument.
use multi_ai_agent.Common.{
  ℕ, String, Bool, true, false, ◌||◌, Option, none, some, List, [], ◌∷◌, ◌++◌, ◌≡◌, refl, str_eq,
  any, keep, truthy, if◌then◌else◌, take,
}
use multi_ai_agent.Common.Dict.{Dict, lookup}

abbrev pub agent_order : List String
agent_order =
    "flight_agent" ∷ "hotel_agent" ∷ "weather_agent" ∷ "budget_agent" ∷ "itinerary_agent" ∷ []

abbrev pub known_agents : List String
known_agents =
    "flight_agent" ∷ "hotel_agent" ∷ "weather_agent" ∷ "budget_agent" ∷ "itinerary_agent" ∷ []

pub record TripConstraints : Type 0 where
  pub destination : String
  pub origin : String
  pub duration : String
  pub budget : String
  pub travel_style : String
  pub special_preferences : List String

pub record SupervisorRouting : Type 0 where
  pub selected_agents : List String
  pub trip_constraints : TripConstraints
  pub reasoning : String

-- What the planner answers: the agent of each task, the constraints and the reasoning.
pub record Plan : Type 0 where
  pub agents : List String
  pub trip_constraints : Dict String
  pub special_preferences : Option (List String)
  pub reasoning : String

abbrev default_constraints : TripConstraints
default_constraints = record {
  destination = "";
  origin = "";
  duration = "";
  budget = "";
  travel_style = "";
  special_preferences = [];
}

-- `agent in agents`
abbrev pub is_in : List String → String → Bool
is_in agents agent = any (λ x. str_eq x agent) agents

unfoldable pub validated_agents : List String → List String
validated_agents selected =
    keep (λ agent. is_in selected agent || is_in known_agents agent) agent_order

unfoldable pub with_itinerary : List String → List String
with_itinerary agents =
    if is_in agents "itinerary_agent" then agents else agents ++ "itinerary_agent" ∷ []

-- `raw_constraints.get(key, "")`
get_or_empty : String → Dict String → String
get_or_empty key d = elim (lookup key d) [ none ↦ "" | some v ↦ v ]

unfoldable pub to_constraints : Plan → TripConstraints
unfolding get_or_empty
to_constraints p = record {
  destination = get_or_empty "destination" p.trip_constraints;
  origin = get_or_empty "origin" p.trip_constraints;
  duration = get_or_empty "duration" p.trip_constraints;
  budget = get_or_empty "budget" p.trip_constraints;
  travel_style = get_or_empty "travel_style" p.trip_constraints;
  special_preferences = elim p.special_preferences [ none ↦ [] | some l ↦ l ];
}

-- `none` is a planner that raised.
unfoldable pub run_supervisor_routing : ℕ → Option Plan → SupervisorRouting
run_supervisor_routing max_parallel_agents none = record {
  selected_agents = take max_parallel_agents agent_order;
  trip_constraints = default_constraints;
  reasoning = "Fallback routing selected default workflow.";
}
run_supervisor_routing max_parallel_agents (some plan) = record {
  selected_agents = take max_parallel_agents (with_itinerary (validated_agents plan.agents));
  trip_constraints = to_constraints plan;
  reasoning = if truthy plan.reasoning then plan.reasoning else "Dynamic DAG plan selected.";
}

or_true : (b : Bool) → (b || true) ≡ true
or_true true = refl
or_true false = refl

validated_agents_lem : (selected : List String) → validated_agents selected ≡ agent_order
unfolding validated_agents
validated_agents_lem selected = simp or_true

-- Whatever agents the plan selects, and where the planner fails, the agents that run are the first
-- of the fixed order, up to the limit.
run_supervisor_routing_fixed :
    (max_parallel_agents : ℕ) (plan : Option Plan)
    → (run_supervisor_routing max_parallel_agents plan).selected_agents
      ≡ take max_parallel_agents agent_order
unfolding run_supervisor_routing with_itinerary
run_supervisor_routing_fixed max_parallel_agents none = refl
run_supervisor_routing_fixed max_parallel_agents (some plan) =
    rw (validated_agents_lem plan.agents) refl
