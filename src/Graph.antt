-- ===== src/Graph.antt =====
-- tripmate/graph/workflow.py and tripmate/graph/routing.py: the edges of the workflow, and a run of the
-- graph up to its end or to the interrupt.
pub mod Runs
use Prim.Native.String.{◌++◌ as append}
use multi_ai_agent.Common.{
  ℕ, zero, suc, String, Bool, true, false, not, Option, none, some, List, [], ◌∷◌, ◌++◌, truthy,
  if◌then◌else◌,
}
use multi_ai_agent.Common.Dict.{Dict, insert}
use multi_ai_agent.Workflow.{
  AgentOutput, CriticReport, Outcomes, Review, TravelState, critic_node, final_node,
  guardrail_blocked_node, human_approval_node, itinerary_node, parallel_specialists_node,
  supervisor_node,
}
use multi_ai_agent.Supervisor.{TripConstraints, SupervisorRouting, is_in}

pub data Node : Type 0 where
  supervisor guardrail_blocked parallel_specialists critic itinerary_agent human_approval
        final_agent :
      Node

unfoldable pub route_from_supervisor : TravelState → Node
route_from_supervisor s = if s.guardrail_allowed then parallel_specialists else guardrail_blocked

-- The edges; `none` is END.
unfoldable pub next_node : Node → TravelState → Option Node
next_node supervisor s = some (route_from_supervisor s)
next_node guardrail_blocked s = none
next_node parallel_specialists s = some critic
next_node critic s = some itinerary_agent
next_node itinerary_agent s = some human_approval
next_node human_approval s = some final_agent
next_node final_agent s = none

-- What the nodes of one invocation ask for.
pub record Agents : Type 0 where
  pub allowed : Bool
  pub reason : String
  pub routing : SupervisorRouting
  pub outcomes : Outcomes
  pub report : CriticReport
  pub draft : AgentOutput
  pub final_res : String
  pub strip : String → String
  pub sanitize_output : String → String

-- A node that finished, the interrupt of a node without a review, or an exception.
pub data Effect : Type 0 where
  finished : TravelState → Effect
  interrupted : Effect
  failed : Effect

abbrev or_failed : Option TravelState → Effect
or_failed none = failed
or_failed (some s) = finished s

review_effect : Agents → Option Review → TravelState → Effect
review_effect a none s = interrupted
review_effect a (some review) s = finished (human_approval_node a.strip review s)

unfoldable pub run_node : Agents → Option Review → Node → TravelState → Effect
unfolding review_effect
run_node a review supervisor s = finished (supervisor_node a.allowed a.reason a.routing s)
run_node a review guardrail_blocked s = finished (guardrail_blocked_node s)
run_node a review parallel_specialists s = or_failed (parallel_specialists_node a.outcomes s)
run_node a review critic s = finished (critic_node a.report s)
run_node a review itinerary_agent s = finished (itinerary_node a.draft s)
run_node a review human_approval s = review_effect a review s
run_node a review final_agent s = finished (final_node a.sanitize_output a.final_res s)

-- The checkpoint: the state after the last node that finished, and the node that comes next.
pub record Checkpoint : Type 0 where
  pub values : TravelState
  pub next : Option Node

pub data Walk : Type 0 where
  stopped : Checkpoint → Walk
  crashed : Checkpoint → Walk
  out_of_fuel : Walk

-- The graph from a node on, with fuel for the nodes that run.
unfoldable pub walk : ℕ → Agents → Option Review → Option Node → TravelState → Walk
walk fuel a review none s = stopped (record { values = s; next = none })
walk zero a review (some n) s = out_of_fuel
walk (suc fuel) a review (some n) s = elim (run_node a review n s) [
  | finished s' ↦ walk fuel a review (next_node n s') s'
  | interrupted ↦ stopped (record { values = s; next = some n })
  | failed ↦ crashed (record { values = s; next = some n })
]

-- No path through the graph has more nodes.
abbrev pub node_count : ℕ
node_count = 7

unfoldable pub start_graph : Agents → TravelState → Walk
unfolding walk
start_graph a s = walk node_count a none (some supervisor) s

unfoldable pub resume_graph : Agents → Review → Checkpoint → Walk
unfolding walk
resume_graph a review c = walk node_count a (some review) c.next c.values
