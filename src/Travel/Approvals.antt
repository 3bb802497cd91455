-- ===== src/Travel/Approvals.antt =====
-- Resuming a plan: what it needs, and that the first answer of a thread is its last.
use multi_ai_agent.Common.{
  ℕ, String, Bool, true, false, Option, none, some, List, [], ◌∷◌, ◌≡◌, refl, ◌∙◌, sym, ap, ◌⊎◌,
  inl, inr,
}
use multi_ai_agent.Common.Dict.{Dict, lookup}
use multi_ai_agent.Access.{Reply, granted, refused}
use multi_ai_agent.Graph.{Agents, Checkpoint}
use multi_ai_agent.Travel.History.{
  execute-history, check-history, owned-remembered, owned-Resumed, Resumed-remembers, Resumed-keeps,
  Resumed, remembered, turned_down, replayed, ran,
}
use multi_ai_agent.Travel.{
  TravelService, Answer, payload, Env, execute_travel_plan, is_pending, is_expired, remember,
  resume_owned, check_owner, if_granted, resume_travel_plan, serialize_graph_result,
}
use multi_ai_agent.Builders.{Response}

abbrev pub is_granted : Reply Bool → Bool
is_granted (granted b) = true
is_granted (refused code) = false

pub data Op : Type 0 where
  executes : (e : Env) (a : Agents) (input : String) (thread_id user : Option String) → Op
  resumes :
      (e : Env) (a : Agents) (thread : String) (approve : Bool) (feedback : String)
      (user : Option String)
      → Op

unfoldable pub apply : Op → TravelService → TravelService
apply (executes e a input thread_id user) s = (execute_travel_plan e a input thread_id user s).0
apply (resumes e a thread approve feedback user) s =
    (resume_travel_plan e a thread approve feedback user s).0

unfoldable pub run_ops : List Op → TravelService → TravelService
run_ops [] s = s
run_ops (op ∷ ops) s = run_ops ops (apply op s)

granted-keeps :
    (e : Env) (a : Agents) (thread k : String) (approve : Bool) (feedback : String)
    (p : TravelService × Reply Bool) (r : Response)
    → lookup k p.0.approval_history ≡ some r
    → lookup k (if_granted e a thread approve feedback p).0.approval_history ≡ some r
unfolding if_granted
granted-keeps e a thread k approve feedback (s, refused code) r h = h
granted-keeps e a thread k approve feedback (s, granted b) r h =
    Resumed-keeps e a thread k approve feedback s (resume_owned e a thread approve feedback s) r
      (owned-Resumed e a thread approve feedback s) h

apply-keeps :
    (k : String) (op : Op) (s : TravelService) (r : Response)
    → lookup k s.approval_history ≡ some r
    → lookup k (apply op s).approval_history ≡ some r
unfolding apply resume_travel_plan
apply-keeps k (executes e a input thread_id user) s r h =
    rw (execute-history e a input thread_id user s) h
apply-keeps k (resumes e a thread approve feedback user) s r h =
    granted-keeps e a thread k approve feedback (check_owner e thread user s) r
      (rw (check-history e thread user s).0 h)

run_ops-keeps :
    (k : String) (ops : List Op) (s : TravelService) (r : Response)
    → lookup k s.approval_history ≡ some r
    → lookup k (run_ops ops s).approval_history ≡ some r
unfolding run_ops
run_ops-keeps k [] s r h = h
run_ops-keeps k (op ∷ ops) s r h = run_ops-keeps k ops (apply op s) r (apply-keeps k op s r h)

granted-remembers :
    (e : Env) (a : Agents) (thread : String) (approve : Bool) (feedback : String)
    (p : TravelService × Reply Bool) (r : Response)
    → (if_granted e a thread approve feedback p).1 ≡ payload r
    → lookup thread (if_granted e a thread approve feedback p).0.approval_history ≡ some r
unfolding if_granted
granted-remembers e a thread approve feedback (s, refused code) r h = cc
granted-remembers e a thread approve feedback (s, granted b) r h =
    Resumed-remembers e a thread approve feedback s (resume_owned e a thread approve feedback s) r
      (owned-Resumed e a thread approve feedback s) h

granted-remembered :
    (e : Env) (a : Agents) (thread : String) (approve : Bool) (feedback : String)
    (p : TravelService × Reply Bool) (r : Response)
    → is_granted p.1 ≡ true
    → lookup thread p.0.approval_history ≡ some r
    → if_granted e a thread approve feedback p ≡ (p.0, payload r)
unfolding if_granted
granted-remembered e a thread approve feedback (s, refused code) r g h = cc
granted-remembered e a thread approve feedback (s, granted b) r g h =
    owned-remembered e a thread approve feedback s r h

-- The first payload that answers a resumption of a thread is the answer to every later one whose
-- caller is let through, whatever happens in between and whatever the later decision is; the
-- graph does not run. So a later plan on the same thread, which the service does start, can no
-- longer be approved or rejected.
pub first_answer_final :
    (e e' : Env) (a a' : Agents) (thread feedback feedback' : String) (approve approve' : Bool)
    (user user' : Option String) (ops : List Op) (s : TravelService) (r : Response)
    → (resume_travel_plan e a thread approve feedback user s).1 ≡ payload r
    → is_granted
        (check_owner e' thread user'
          (run_ops ops (resume_travel_plan e a thread approve feedback user s).0)).1
      ≡ true
    → let s' = run_ops ops (resume_travel_plan e a thread approve feedback user s).0 in
      ((resume_travel_plan e' a' thread approve' feedback' user' s').1 ≡ payload r)
      × ((resume_travel_plan e' a' thread approve' feedback' user' s').0.checkpoints
          ≡ s'.checkpoints)
unfolding resume_travel_plan
first_answer_final e e' a a' thread feedback feedback' approve approve' user user' ops s r h g =
    let first = granted-remembers e a thread approve feedback (check_owner e thread user s) r h in
    let s' = run_ops ops (resume_travel_plan e a thread approve feedback user s).0 in
    let c = check_owner e' thread user' s' in
    let (same, checkpoints, times) = check-history e' thread user' s' in
    let there : lookup thread c.0.approval_history ≡ some r = rw same (
      run_ops-keeps thread ops (resume_travel_plan e a thread approve feedback user s).0 r first) in
    let q = granted-remembered e' a' thread approve' feedback' c r g there in
    (
      ap (λ (x : TravelService × Answer). x.1) q,
      ap (λ (x : TravelService × Answer). x.0.checkpoints) q ∙ checkpoints,
    )

-- The graph was resumed on the thread by a call with a permitted caller, while it waited for its
-- review, in time, and with no answer yet.
pub record MayRun (e : Env) (thread : String) (user : Option String) (s : TravelService)
    : Type 0 where
  pub permitted : is_granted (check_owner e thread user s).1 ≡ true
  pub unanswered : lookup thread s.approval_history ≡ none
  pub pending :
      (c : Checkpoint) × (lookup thread s.checkpoints ≡ some c) × (is_pending c.next ≡ true)
  pub in_time : is_expired e (lookup thread s.approval_timestamps) ≡ false

graph_ran :
    (e : Env) (a : Agents) (thread : String) (approve : Bool) (feedback : String)
    (s : TravelService) (result : TravelService × Answer)
    → Resumed e a thread approve feedback s result
    → (result.0.checkpoints ≡ s.checkpoints)
      ⊎ ((lookup thread s.approval_history ≡ none)
          × ((c : Checkpoint) × (lookup thread s.checkpoints ≡ some c) × (is_pending c.next ≡ true))
          × (is_expired e (lookup thread s.approval_timestamps) ≡ false))
unfolding remember serialize_graph_result
graph_ran e a thread approve feedback s _ (remembered q there) = inl refl
graph_ran e a thread approve feedback s _ (turned_down code) = inl refl
graph_ran e a thread approve feedback s _ (replayed c fresh) = inl refl
graph_ran e a thread approve feedback s _ (ran c fresh there waits in_time) =
    inr (fresh, (c, there, waits), in_time)

granted_sound :
    (e : Env) (a : Agents) (thread : String) (approve : Bool) (feedback : String)
    (p : TravelService × Reply Bool)
    → ((if_granted e a thread approve feedback p).0.checkpoints ≡ p.0.checkpoints)
      ⊎ ((is_granted p.1 ≡ true)
          × (lookup thread p.0.approval_history ≡ none)
          × ((c : Checkpoint) × (lookup thread p.0.checkpoints ≡ some c)
              × (is_pending c.next ≡ true))
          × (is_expired e (lookup thread p.0.approval_timestamps) ≡ false))
unfolding if_granted
granted_sound e a thread approve feedback (s, refused code) = inl refl
granted_sound e a thread approve feedback (s, granted b) =
    elim (graph_ran e a thread approve feedback s (resume_owned e a thread approve feedback s)
      (owned-Resumed e a thread approve feedback s)) [
        | inl same ↦ inl same
        | inr (fresh, there, in_time) ↦ inr (refl, fresh, there, in_time)
      ]

-- A resumption changes no checkpoint, unless its caller is let through and the thread waits for its
-- review, in time, and has no answer yet.
pub resume_sound :
    (e : Env) (a : Agents) (thread feedback : String) (approve : Bool) (user : Option String)
    (s : TravelService)
    → ((resume_travel_plan e a thread approve feedback user s).0.checkpoints ≡ s.checkpoints)
      ⊎ MayRun e thread user s
unfolding resume_travel_plan
resume_sound e a thread feedback approve user s =
    let (same, checkpoints, times) = check-history e thread user s in
    elim (granted_sound e a thread approve feedback (check_owner e thread user s)) [
      | inl unchanged ↦ inl (unchanged ∙ checkpoints)
      | inr (g, fresh, (c, there, waits), in_time) ↦ inr (record {
        permitted = g;
        unanswered = ap (lookup thread) (sym same) ∙ fresh;
        pending = (c, ap (lookup thread) (sym checkpoints) ∙ there, waits);
        in_time = ap (λ (d : Dict ℕ). is_expired e (lookup thread d)) (sym times) ∙ in_time;
      })
    ]
