-- ===== src/Workflow/Specialists.antt =====
-- The specialists' node: each agent's result rests on its own outcome.
use multi_ai_agent.Common.{
  String, Bool, true, false, some, List, [], ◌++◌, ◌≡◌, ◌∙◌, ap, ◌≢◌, refl, inl, inr, Bool-cases,
  if◌then◌else◌,
}
use multi_ai_agent.Common.Dict.{Dict, insert}
use multi_ai_agent.Supervisor.{is_in}
use multi_ai_agent.Workflow.{
  TravelState, AgentOutput, Evidence, degraded, Specialist, flight, hotel, weather, agent_name,
  result_of, set_result, Outcome, returned, raised, was_cancelled, unavailable, absorb,
  absorb_selected, add_budget, Outcomes, parallel_specialists_node,
}

abbrev pub text_of : Outcome → String
text_of (returned out) = out.result
text_of (raised e) = unavailable e
text_of was_cancelled = ""

abbrev pub sources_of : Outcome → List Evidence
sources_of (returned out) = out.sources
sources_of _ = []

abbrev same : Specialist → Specialist → Bool
same flight flight = true
same hotel hotel = true
same weather weather = true
same _ _ = false

-- What the round of one agent leaves.
record Absorbs (a : Specialist) (text : String) (s t : TravelState) : Type 0 where
  ours : result_of a t ≡ text
  others : (b : Specialist) → same a b ≡ false → result_of b t ≡ result_of b s
  selected : t.selected_agents ≡ s.selected_agents
  itinerary : t.itinerary ≡ s.itinerary
  budget : t.budget_results ≡ s.budget_results

other_result :
    (a b : Specialist) (text : String) (s : TravelState)
    → same a b ≡ false
    → result_of b (set_result a text s) ≡ result_of b s
other_result flight flight text s e = cc
other_result flight hotel text s e = refl
other_result flight weather text s e = refl
other_result hotel flight text s e = refl
other_result hotel hotel text s e = cc
other_result hotel weather text s e = refl
other_result weather flight text s e = refl
other_result weather hotel text s e = refl
other_result weather weather text s e = cc

Absorbs-refl : (a : Specialist) (s : TravelState) → Absorbs a (result_of a s) s s
Absorbs-refl a s = record {
  ours = refl;
  others = λ b e. refl;
  selected = refl;
  itinerary = refl;
  budget = refl;
}

-- The bookkeeping of a round, which no result rests on.
abbrev noted : Dict AgentOutput → List Evidence → TravelState → TravelState
noted d ev s = record s { structured_outputs = d; evidence_items = ev }

noted_result :
    (b : Specialist) (d : Dict AgentOutput) (ev : List Evidence) (s : TravelState)
    → result_of b (noted d ev s) ≡ result_of b s
noted_result flight d ev s = refl
noted_result hotel d ev s = refl
noted_result weather d ev s = refl

set_result-Absorbs :
    (a : Specialist) (text : String) (d : Dict AgentOutput) (ev : List Evidence) (s : TravelState)
    → Absorbs a text s (set_result a text (noted d ev s))
set_result-Absorbs flight text d ev s = record {
  ours = refl;
  others = λ b e. other_result flight b text (noted d ev s) e ∙ noted_result b d ev s;
  selected = refl;
  itinerary = refl;
  budget = refl;
}
set_result-Absorbs hotel text d ev s = record {
  ours = refl;
  others = λ b e. other_result hotel b text (noted d ev s) e ∙ noted_result b d ev s;
  selected = refl;
  itinerary = refl;
  budget = refl;
}
set_result-Absorbs weather text d ev s = record {
  ours = refl;
  others = λ b e. other_result weather b text (noted d ev s) e ∙ noted_result b d ev s;
  selected = refl;
  itinerary = refl;
  budget = refl;
}

absorb-Absorbs :
    (a : Specialist) (o : Outcome) (s : TravelState)
    → o ≢ was_cancelled
    → (t : TravelState) × (absorb a o s ≡ some t) × Absorbs a (text_of o) s t
unfolding absorb
absorb-Absorbs a (returned out) s n =
    let d = insert (agent_name a) out s.structured_outputs in
    let ev = s.evidence_items ++ out.sources in
    (set_result a out.result (noted d ev s), refl, set_result-Absorbs a out.result d ev s)
absorb-Absorbs a (raised e) s n =
    let d = insert (agent_name a) (degraded (agent_name a) e) s.structured_outputs in
    let ev = s.evidence_items in
    (set_result a (unavailable e) (noted d ev s), refl, set_result-Absorbs a (unavailable e) d ev s)
absorb-Absorbs a was_cancelled s n = absurd (n refl)

absorb_selected-Absorbs :
    (selected : List String) (a : Specialist) (o : Outcome) (s : TravelState)
    → o ≢ was_cancelled
    → (t : TravelState) × (absorb_selected selected a o s ≡ some t)
      × Absorbs a (if is_in selected (agent_name a) then text_of o else result_of a s) s t
unfolding absorb_selected
absorb_selected-Absorbs selected a o s n = elim (Bool-cases (is_in selected (agent_name a))) [
  | inl e ↦ rw e (absorb-Absorbs a o s n)
  | inr e ↦ rw e (s, refl, Absorbs-refl a s)
]

budget_result :
    (b : Specialist) (text : String) (d : Dict AgentOutput) (ev : List Evidence) (s : TravelState)
    → result_of b (record s { budget_results = text; structured_outputs = d; evidence_items = ev })
      ≡ result_of b s
budget_result flight text d ev s = refl
budget_result hotel text d ev s = refl
budget_result weather text d ev s = refl

-- The budget agent's turn changes none of the three results.
budget_turn :
    (selected : List String) (o : Outcome) (out : AgentOutput) (s : TravelState)
    → o ≡ returned out
    → (t : TravelState) × ((if is_in selected "budget_agent" then add_budget o s else some s)
        ≡ some t)
      × ((a : Specialist) → result_of a t ≡ result_of a s)
      × (t.budget_results
          ≡ (if is_in selected "budget_agent" then out.result else s.budget_results))
      × (t.itinerary ≡ s.itinerary)
unfolding add_budget
budget_turn selected o out s e = elim (Bool-cases (is_in selected "budget_agent")) [
  | inl chosen ↦
      let ev = s.evidence_items ++ out.sources in
      let d = insert "budget_agent" out s.structured_outputs in
      let t = record s {
        budget_results = out.result;
        structured_outputs = d;
        evidence_items = ev;
      } in
      (
        t,
        rw chosen (rw (e, add_budget) refl),
        λ a. budget_result a out.result d ev s,
        rw chosen refl,
        refl,
      )
  | inr left_out ↦ (s, rw left_out refl, λ a. refl, rw left_out refl, refl)
]

-- What a result is to be after the node.
abbrev expected : Outcomes → TravelState → Specialist → String
expected o s a = if is_in s.selected_agents (agent_name a) then text_of (o.of a) else result_of a s

round_text : (b : Bool) (x y z : String) → y ≡ z → (if b then x else y) ≡ (if b then x else z)
round_text b x y z e = ap (λ (w : String). if b then x else w) e

three_rounds :
    (o : Outcomes) (s t1 t2 t3 : TravelState)
    → Absorbs flight (expected o s flight) s t1
    → Absorbs hotel
        (if is_in s.selected_agents "hotel_agent" then text_of (o.of hotel) else result_of hotel t1)
        t1
        t2
    → Absorbs weather
        (if is_in s.selected_agents "weather_agent"
          then text_of (o.of weather)
          else result_of weather t2)
        t2
        t3
    → (a : Specialist) → result_of a t3 ≡ expected o s a
three_rounds o s t1 t2 t3 h1 h2 h3 flight = h3.others flight refl ∙ h2.others flight refl ∙ h1.ours
three_rounds o s t1 t2 t3 h1 h2 h3 hotel =
    h3.others hotel refl
    ∙ h2.ours
    ∙ round_text (is_in s.selected_agents "hotel_agent") (text_of (o.of hotel)) t1.hotel_results
        s.hotel_results (h1.others hotel refl)
three_rounds o s t1 t2 t3 h1 h2 h3 weather =
    h3.ours
    ∙ round_text (is_in s.selected_agents "weather_agent") (text_of (o.of weather))
        t2.weather_results s.weather_results (h2.others weather refl ∙ h1.others weather refl)

-- However an agent ends, short of being cancelled, and whatever the others do, the node finishes if
-- the budget agent does not raise: the result of each of the three is its own agent's, or a notice of
-- its failure, where it was selected, and what it was before where it was not.
pub specialists_isolated :
    (o : Outcomes) (s : TravelState) (out : AgentOutput)
    → o.budget ≡ returned out
    → (o.of flight ≢ was_cancelled) × (o.of hotel ≢ was_cancelled) × (o.of weather ≢ was_cancelled)
    → (t : TravelState) × (parallel_specialists_node o s ≡ some t)
      × ((a : Specialist)
          → result_of a t
            ≡ (if is_in s.selected_agents (agent_name a) then text_of (o.of a) else result_of a s))
      × (t.budget_results
          ≡ (if is_in s.selected_agents "budget_agent" then out.result else s.budget_results))
      × (t.itinerary ≡ s.itinerary)
unfolding parallel_specialists_node
specialists_isolated o s out b n =
    let sel = s.selected_agents in
    let (t1, r1, h1) = absorb_selected-Absorbs sel flight (o.of flight) s n.0 in
    let (t2, r2, h2) = absorb_selected-Absorbs sel hotel (o.of hotel) t1 n.1 in
    let (t3, r3, h3) = absorb_selected-Absorbs sel weather (o.of weather) t2 n.2 in
    let (t, r, results, budget, itinerary) = budget_turn sel o.budget out t3 b in
    (
      t,
      rw r1 (rw r2 (rw r3 r)),
      λ a. results a ∙ three_rounds o s t1 t2 t3 h1 h2 h3 a,
      budget
          ∙ round_text (is_in sel "budget_agent") out.result t3.budget_results s.budget_results
              (h3.budget ∙ h2.budget ∙ h1.budget),
      itinerary ∙ h3.itinerary ∙ h2.itinerary ∙ h1.itinerary,
    )
