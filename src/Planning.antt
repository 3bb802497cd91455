-- ===== src/Planning.antt =====
-- tripmate/agents/planner.py and tripmate/agents/critic.py. The model is asked with a prompt and answers, or
-- raises (`none`); `parse` reads the object of its answer, with the defaults of missing keys, and is
-- `none` where `json.loads` or a model of pydantic raises. What is logged is left out.
pub mod Plans
use Prim.Native.String.{◌++◌}
use multi_ai_agent.Common.{
  ℕ, String, Bool, true, false, Option, none, some, List, [], ◌∷◌, map, ◌>>=◌, truthy,
  if◌then◌else◌,
}
use multi_ai_agent.Common.Text.{prefix, join}
use multi_ai_agent.Replies.{extract_json}
use multi_ai_agent.Workflow.{CriticReport}

pub record AgentMetadata : Type 0 where
  pub name : String
  pub description : String
  pub capabilities : List String

pub record TaskSpec : Type 0 where
  pub task_id : String
  pub agent : String
  pub depends_on : List String
  pub priority : String
  pub retry_limit : ℕ
  pub risk_level : String

pub record PlanConstraints : Type 0 where
  pub destination : String
  pub origin : String
  pub duration : String
  pub budget : String

pub record PlanDag : Type 0 where
  pub tasks : List TaskSpec
  pub reasoning : String
  pub trip_constraints : PlanConstraints

-- One line for each registered agent; a fixed list where there is none.
abbrev pub agent_line : AgentMetadata → String
agent_line a =
    "- "
    ++ (a.name
        ++ (": " ++ (a.description ++ (" (capabilities: " ++ (join ", " a.capabilities ++ ")")))))

abbrev pub standard_agents : List String
standard_agents =
    "- flight_agent: flight status, airlines, options" ∷ "- hotel_agent: hotel accommodations"
    ∷ "- weather_agent: current weather & forecasts"
    ∷ "- budget_agent: cost calculations & budget advice"
    ∷ "- itinerary_agent: day-by-day draft itinerary" ∷ []

unfoldable pub agent_descriptions : List AgentMetadata → String
unfolding join
agent_descriptions agents =
    let described = join "\n" (map agent_line agents) in
    if truthy described then described else join "\n" standard_agents

abbrev pub plan_intro : List String
plan_intro =
    "\n" ∷ "You are the lead AI planner for an autonomous multi-agent system.\n"
    ∷ "Decompose the following request into a structured task graph (DAG).\n" ∷ "\n"
    ∷ "Available Registered Agents:\n" ∷ []

abbrev pub plan_rules : List String
plan_rules =
    "\n" ∷ "\n" ∷ "Rules:\n" ∷ "1. Break down the user request into logical tasks.\n"
    ∷ "2. For each task, specify:\n"
    ∷ "   - task_id: unique slug (e.g. flight_search, hotel_search)\n"
    ∷ "   - agent: registered agent name\n"
    ∷ "   - depends_on: list of task_ids that must finish before this task runs\n"
    ∷ "   - priority: low, medium, or high\n" ∷ "   - retry_limit: number of retries (1-3)\n"
    ∷ "   - risk_level: low, medium, or high\n" ∷ "3. Tasks with no dependencies run in parallel.\n"
    ∷ "4. Always include an itinerary synthesis step depending on specialist outputs.\n" ∷ "\n"
    ∷ "Return strict JSON matching this schema:\n" ∷ "{\n" ∷ "  \"tasks\": [\n" ∷ "    {\n"
    ∷ "      \"task_id\": \"flight_search\",\n" ∷ "      \"agent\": \"flight_agent\",\n"
    ∷ "      \"depends_on\": [],\n" ∷ "      \"priority\": \"high\",\n"
    ∷ "      \"retry_limit\": 2,\n" ∷ "      \"risk_level\": \"low\"\n" ∷ "    },\n" ∷ "    ...\n"
    ∷ "  ],\n" ∷ "  \"trip_constraints\": {\n" ∷ "    \"destination\": \"\",\n"
    ∷ "    \"origin\": \"\",\n" ∷ "    \"duration\": \"\",\n" ∷ "    \"budget\": \"\"\n" ∷ "  },\n"
    ∷ "  \"reasoning\": \"Brief explanation of plan structure\"\n" ∷ "}\n" ∷ "\n" ∷ "User Request: "
    ∷ []

unfoldable pub plan_prompt : List AgentMetadata → String → String
unfolding agent_descriptions join
plan_prompt agents user_query =
    join "" plan_intro
    ++ (agent_descriptions agents ++ (join "" plan_rules ++ (user_query ++ "\n")))

abbrev pub standard_task : String → String → List String → String → ℕ → TaskSpec
standard_task name agent needs priority retries = record {
  task_id = name;
  agent = agent;
  depends_on = needs;
  priority = priority;
  retry_limit = retries;
  risk_level = "low";
}

abbrev pub default_tasks : List TaskSpec
default_tasks =
    standard_task "flight_search" "flight_agent" [] "high" 2
    ∷ standard_task "hotel_search" "hotel_agent" [] "high" 2
    ∷ standard_task "weather_search" "weather_agent" [] "medium" 2
    ∷ standard_task "budget_analysis" "budget_agent" ("flight_search" ∷ "hotel_search" ∷ [])
        "medium" 2
    ∷ standard_task "itinerary_synthesis" "itinerary_agent"
        ("flight_search" ∷ "hotel_search" ∷ "weather_search" ∷ "budget_analysis" ∷ []) "high" 1
    ∷ []

abbrev pub default_plan : String → PlanDag
default_plan reasoning = record {
  tasks = default_tasks;
  reasoning = reasoning;
  trip_constraints = record { destination = ""; origin = ""; duration = ""; budget = "" };
}

-- `if tasks: return PlanDAG(...)`
abbrev pub with_tasks : PlanDag → Option PlanDag
with_tasks plan = elim plan.tasks [ [] ↦ none | t ∷ ts ↦ some plan ]

abbrev pub plan_or : PlanDag → Option PlanDag → PlanDag
plan_or fallback none = fallback
plan_or fallback (some plan) = plan

module _ (strip : String → String) where
  -- The plan that the model proposes.
  unfoldable pub proposed_plan :
      (String → Option PlanDag)
      → List AgentMetadata
      → (String → Option String)
      → String
      → Option PlanDag
  unfolding plan_prompt extract_json
  proposed_plan parse agents model user_query = do
    content ← model (plan_prompt agents user_query)
    object ← extract_json strip content
    plan ← parse object
    with_tasks plan

  unfoldable pub create_plan :
      (String → Option PlanDag)
      → List AgentMetadata
      → Option (String → Option String)
      → String
      → PlanDag
  unfolding proposed_plan
  create_plan parse agents none user_query = default_plan "LLM unconfigured fallback"
  create_plan parse agents (some model) user_query =
      plan_or (default_plan "Fallback standard execution plan")
        (proposed_plan parse agents model user_query)

-- The prompt of the critic: the request, the constraints, the outputs as JSON and the draft.
abbrev pub criteria : List String
criteria =
    "\n\n" ∷ "Evaluate the plan against these criteria:\n"
    ∷ "1. Completeness: Are essential components (flights, hotels, schedule, budget) present?\n"
    ∷ "2. Budget Compliance: Are cost estimates realistic and within requested limits?\n"
    ∷ "3. Consistency: Are there date or location contradictions?\n"
    ∷ "4. Quality & Groundedness: Are recommendations practical without hallucinated claims?\n"
    ∷ "\n" ∷ "Return strict JSON matching this schema:\n" ∷ "{\n" ∷ "  \"is_valid\": true,\n"
    ∷ "  \"score\": 0.95,\n" ∷ "  \"violations\": [],\n"
    ∷ "  \"recommendations\": [\"Minor tip or observation\"],\n" ∷ "  \"requires_retry\": false,\n"
    ∷ "  \"retry_tasks\": []\n" ∷ "}\n" ∷ []

unfoldable pub critic_prompt : String → String → String → String → String
unfolding join prefix
critic_prompt user_query constraints outputs_json draft_itinerary =
    "\nYou are a meticulous Critic & Validation Agent reviewing an automated multi-agent plan.\n\nUser Query: "
    ++ (user_query
        ++ ("\nExtracted Constraints: "
            ++ (constraints
                ++ ("\n\nGathered Agent Outputs:\n"
                    ++ (prefix 3000 outputs_json
                        ++ ("\n\nDraft Itinerary:\n"
                            ++ (prefix 2000 draft_itinerary ++ join "" criteria)))))))

abbrev pub passed_with : ℕ → String → CriticReport
passed_with score advice = record {
  is_valid = true;
  score = score;
  violations = [];
  recommendations = advice ∷ [];
  requires_retry = false;
  retry_tasks = [];
}

abbrev pub report_or : CriticReport → Option CriticReport → CriticReport
report_or fallback none = fallback
report_or fallback (some report) = report

module _ (strip : String → String) where
  unfoldable pub model_report :
      (String → Option CriticReport) → (String → Option String) → String → Option CriticReport
  unfolding extract_json
  model_report parse model prompt = do
    content ← model prompt
    object ← extract_json strip content
    parse object

  unfoldable pub evaluate_plan :
      (String → Option CriticReport)
      → Option (String → Option String)
      → String
      → String
      → String
      → String
      → CriticReport
  unfolding critic_prompt model_report
  evaluate_plan parse none user_query constraints outputs_json draft_itinerary =
      passed_with 90 "Proceed with draft review (Critic LLM unconfigured)"
  evaluate_plan parse (some model) user_query constraints outputs_json draft_itinerary =
      report_or (passed_with 85 "Evaluated with fallback rules") (
        model_report parse model
          (critic_prompt user_query constraints outputs_json draft_itinerary))
