-- ===== src/Graph/Runs.antt =====
-- Where a run of the workflow graph ends.
use multi_ai_agent.Common.{
  String, true, false, none, some, ◌≡◌, refl, inl, inr, Bool-cases, Option-cases,
}
use multi_ai_agent.Workflow.{
  blocked, waiting_for_approval, completed, TravelState, supervisor_node, guardrail_blocked_node,
  parallel_specialists_node, critic_node, itinerary_node, human_approval_node, final_node, Review,
  is_approval, feedback_of,
}
use multi_ai_agent.Graph.{
  route_from_supervisor, next_node, guardrail_blocked, parallel_specialists, human_approval, Agents,
  run_node, Checkpoint, Walk, stopped, crashed, walk, start_graph, resume_graph,
}

-- The drafting part of the state, which a blocked request leaves as it is.
abbrev pub drafts : TravelState → String × String × String × String × String
drafts s = (s.flight_results, s.hotel_results, s.weather_results, s.budget_results, s.itinerary)

-- The ways in which a new request's run can end.
pub data StartOutcome (a : Agents) (s : TravelState) : Walk → Type 0 where
  was_blocked :
      (c : Checkpoint)
      → a.allowed ≡ false
      → c.next ≡ none
      → c.values.status ≡ blocked
      → drafts c.values ≡ drafts s
      → StartOutcome a s (stopped c)
  agents_failed :
      (c : Checkpoint)
      → a.allowed ≡ true
      → c.next ≡ some parallel_specialists
      → parallel_specialists_node a.outcomes c.values ≡ none
      → StartOutcome a s (crashed c)
  awaits_review :
      (c : Checkpoint)
      → a.allowed ≡ true
      → c.next ≡ some human_approval
      → c.values.status ≡ waiting_for_approval
      → c.values.itinerary ≡ a.draft.result
      → StartOutcome a s (stopped c)

to_specialists :
    (a : Agents) (s : TravelState)
    → a.allowed ≡ true
    → route_from_supervisor (supervisor_node a.allowed a.reason a.routing s) ≡ parallel_specialists
unfolding supervisor_node route_from_supervisor
to_specialists a s e = rw e refl

to_blocked :
    (a : Agents) (s : TravelState)
    → a.allowed ≡ false
    → route_from_supervisor (supervisor_node a.allowed a.reason a.routing s) ≡ guardrail_blocked
unfolding supervisor_node route_from_supervisor
to_blocked a s e = rw e refl

first_step :
    (a : Agents) (s : TravelState)
    → let s' = supervisor_node a.allowed a.reason a.routing s in
      start_graph a s ≡ walk 6 a none (some (route_from_supervisor s')) s'
unfolding start_graph walk run_node next_node
first_step a s = refl

supervisor-drafts :
    (a : Agents) (s : TravelState)
    → drafts (guardrail_blocked_node (supervisor_node a.allowed a.reason a.routing s)) ≡ drafts s
unfolding supervisor_node guardrail_blocked_node
supervisor-drafts a s = elim (Bool-cases a.allowed) [ inl e ↦ rw e refl | inr e ↦ rw e refl ]

blocked_run :
    (a : Agents) (s t : TravelState)
    → a.allowed ≡ false
    → drafts (guardrail_blocked_node t) ≡ drafts s
    → StartOutcome a s (walk 6 a none (some guardrail_blocked) t)
unfolding walk run_node next_node guardrail_blocked_node
blocked_run a s t e same =
    was_blocked (record { values = guardrail_blocked_node t; next = none }) e refl refl same

drafting_run :
    (a : Agents) (s t : TravelState)
    → a.allowed ≡ true
    → StartOutcome a s (walk 6 a none (some parallel_specialists) t)
unfolding walk run_node next_node itinerary_node
drafting_run a s t e = elim (Option-cases (parallel_specialists_node a.outcomes t)) [
  | inl none_left ↦
      rw (none_left, walk)
        (agents_failed (record { values = t; next = some parallel_specialists }) e refl none_left)
  | inr (u, ran) ↦
      let v = itinerary_node a.draft (critic_node a.report u) in
      rw (ran, walk)
        (awaits_review (record { values = v; next = some human_approval }) e refl refl refl)
]

-- A run of a new request never runs out of fuel: it is blocked by the guardrail, with no agent run
-- and no draft made; or the specialists' node fails; or it waits for the review of the draft. It
-- never ends as completed.
pub start_graph_outcome : (a : Agents) (s : TravelState) → StartOutcome a s (start_graph a s)
start_graph_outcome a s =
    let t = supervisor_node a.allowed a.reason a.routing s in
    rw (first_step a s) (elim (Bool-cases a.allowed) [
      | inl yes_allowed ↦ rw (to_specialists a s yes_allowed) (drafting_run a s t yes_allowed)
      | inr refused ↦
          rw (to_blocked a s refused) (blocked_run a s t refused (supervisor-drafts a s))
    ])

-- A reviewed run completes, with the decision, the feedback and the sanitized answer, and the draft
-- as it was reviewed; also where the review is a rejection.
resume_graph_lem :
    (a : Agents) (review : Review) (c : Checkpoint)
    → c.next ≡ some human_approval
    → (s : TravelState) × (resume_graph a review c ≡ stopped (record { values = s; next = none }))
      × (s.status ≡ completed)
      × (s.approved ≡ is_approval review)
      × (s.human_feedback ≡ feedback_of a.strip review)
      × (s.final_response ≡ a.sanitize_output a.final_res)
      × (drafts s ≡ drafts c.values)
unfolding resume_graph walk run_node next_node human_approval_node final_node
resume_graph_lem a review c e = (
  final_node a.sanitize_output a.final_res (human_approval_node a.strip review c.values),
  rw e refl,
  refl,
  refl,
  refl,
  refl,
  refl,
)
