-- ===== src/Planning/Plans.antt =====
-- Every plan has something to do.
use multi_ai_agent.Common.{
  ◌<◌, String, Option, none, some, List, [], ◌∷◌, ◌≡◌, length, refl, arith, Option-cases, inl, inr,
}
use multi_ai_agent.Replies.{extract_json}
use multi_ai_agent.Planning.{
  AgentMetadata, PlanDag, TaskSpec, default_plan, with_tasks, plan_or, plan_prompt, proposed_plan,
  create_plan,
}

kept_tasks :
    (fallback plan : PlanDag) (ts : List TaskSpec)
    → plan.tasks ≡ ts
    → 0 < length fallback.tasks
    → 0 < length (plan_or fallback (with_tasks plan)).tasks
kept_tasks fallback plan [] e h = rw e h
kept_tasks fallback plan (t ∷ ts) e h = rw e (ground arith)

-- Whatever the model answers, and where it does not answer, a plan has a task.
create_plan-tasks :
    (strip : String → String) (parse : String → Option PlanDag) (agents : List AgentMetadata)
    (llm : Option (String → Option String)) (user_query : String)
    → 0 < length (create_plan strip parse agents llm user_query).tasks
unfolding create_plan proposed_plan
create_plan-tasks strip parse agents none user_query = ground arith
create_plan-tasks strip parse agents (some model) user_query =
    elim (Option-cases (model (plan_prompt agents user_query))) [
      | inl e ↦ rw (e, proposed_plan) (ground arith)
      | inr (content, e) ↦ elim (Option-cases (extract_json strip content)) [
        | inl f ↦ rw (e, f, proposed_plan) (ground arith)
        | inr (object, f) ↦ elim (Option-cases (parse object)) [
          | inl g ↦ rw (e, f, g, proposed_plan) (ground arith)
          | inr (plan, g) ↦
              rw (e, f, g, proposed_plan)
                (kept_tasks (default_plan "Fallback standard execution plan") plan plan.tasks refl
                  (ground arith))
        ]
      ]
    ]
