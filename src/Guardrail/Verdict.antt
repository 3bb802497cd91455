-- ===== src/Guardrail/Verdict.antt =====
-- Which requests the guardrail lets through.
use Prim.Native.String.{count}
use multi_ai_agent.Common.{
  ℕ, ◌≤◌, String, Bool, true, false, not, ◌||◌, Option, none, some, List, [], ◌∷◌, ◌≡◌, ◌↔◌, refl,
  ◌∙◌, sym, inl, inr, arith, ltb, truthy, All, if◌then◌else◌, Bool-cases, Option-cases,
}
use multi_ai_agent.Guardrail.{
  Signature, GuardrailDecision, injection_signatures, scan, deterministic_input_check,
  mask_pii_entities, of_decision, semantic_check, classified, advanced_guardrail_check,
  run_guardrail_check,
}

-- The verdict of the classifier on a request: only a decision that was read can refuse.
unfoldable pub refuses : Option GuardrailDecision → Bool
refuses none = false
refuses (some decision) = not decision.allowed

gate :
    (short long : Bool) (m n : String) (r : Bool × String)
    → (if short then (false, m) else if long then (false, n) else r).0 ≡ true
    → (short ≡ false) × (long ≡ false) × (r.0 ≡ true)
gate true long m n r h = absurd (ground (arith, h))
gate false true m n r h = absurd (ground (arith, h))
gate false false m n r h = (refl, refl, h)

not_short : (t : Bool) (n : ℕ) → (not t || ltb n 3) ≡ false → (t ≡ true) × (3 ≤ n)
not_short true n h = (refl, ground (arith, h))
not_short false n h = absurd (ground (arith, h))

long_enough : (t : Bool) (n : ℕ) → t ≡ true → 3 ≤ n → (not t || ltb n 3) ≡ false
long_enough t n a b = rw a (ground arith)

double_negation : (b : Bool) → not (not b) ≡ b
double_negation true = refl
double_negation false = refl

module _ (strip lower : String → String) (search : String → String → Option String) where
  abbrev pub Unmatched : List Signature → String → Type 0
  Unmatched ss query = All (λ s. search s.pattern query ≡ none) ss

  -- Long enough without the space around it, not too long, and without a signature of an attack.
  abbrev pub Acceptable : String → Type 0
  Acceptable query =
      (truthy query ≡ true)
      × (3 ≤ count (strip query))
      × (count query ≤ 4000)
      × Unmatched injection_signatures (strip query)

  scan_sound :
      (ss : List Signature) (query : String)
      → (scan strip lower search ss query).0 ≡ true
      → Unmatched ss query
  unfolding scan
  scan_sound [] query h = tt
  scan_sound (s ∷ ss) query h = elim (Option-cases (search s.pattern query)) [
    | inl e ↦ (e, scan_sound ss query (rw (e, scan) at h))
    | inr (found, e) ↦ absurd (ground (arith, rw (e, scan) at h))
  ]

  scan_complete :
      (ss : List Signature) (query : String)
      → Unmatched ss query
      → (scan strip lower search ss query).0 ≡ true
  unfolding scan
  scan_complete [] query h = refl
  scan_complete (s ∷ ss) query h = rw (h.0, scan) (scan_complete ss query h.1)

  check_sound :
      (query : String)
      → (deterministic_input_check strip lower search query).0 ≡ true
      → Acceptable query
  unfolding deterministic_input_check
  check_sound query h =
      let (short, long, clean) =
        gate (not (truthy query) || ltb (count (strip query)) 3) (ltb 4000 (count query))
          "Request prompt is too short to be a valid travel query."
          "Request prompt exceeds maximum allowed limit of 4,000 characters."
          (scan strip lower search injection_signatures (strip query)) h in
      let (some_text, enough) = not_short (truthy query) (count (strip query)) short in
      let few : count query ≤ 4000 = ground (arith, long) in
      (some_text, enough, few, scan_sound injection_signatures (strip query) clean)

  check_complete :
      (query : String)
      → Acceptable query
      → (deterministic_input_check strip lower search query).0 ≡ true
  unfolding deterministic_input_check
  check_complete query (a, b, c, d) =
      let fits : ltb 4000 (count query) ≡ false = ground arith in
      rw (long_enough (truthy query) (count (strip query)) a b, fits)
        (scan_complete injection_signatures (strip query) d)

  module _ (sub : String → String → String → String)
      (parse : String → Option GuardrailDecision) where
    -- The verdict on the masked request. Without a classifier, nothing is refused.
    unfoldable pub verdict : Option (String → Option String) → String → Bool
    unfolding refuses
    verdict none masked = false
    verdict (some model) masked = refuses (classified strip lower search sub parse model masked)

    of_decision_lem :
        (masked : String) (d : Option GuardrailDecision)
        → (of_decision strip lower search sub parse masked d).allowed ≡ not (refuses d)
    unfolding refuses
    of_decision_lem masked none = refl
    of_decision_lem masked (some decision) = sym (double_negation decision.allowed)

    semantic_check_lem :
        (llm : Option (String → Option String)) (masked : String)
        → (semantic_check strip lower search sub parse llm masked).allowed
          ≡ not (verdict llm masked)
    unfolding verdict
    semantic_check_lem none masked = refl
    semantic_check_lem (some model) masked =
        of_decision_lem masked (classified strip lower search sub parse model masked)

    only_when : (b : Bool) → not b ≡ true → b ≡ false
    only_when true h = ground (arith, h)
    only_when false h = refl

    -- A request is let through exactly where its length, without the space around it, is at least 3, it
    -- has at most 4,000 characters, no signature of an attack matches it, and the classifier, shown the
    -- request with its personal data masked, did not answer with a decision that refuses it: a
    -- classifier that is not configured, that raises, or whose answer holds no decision refuses nothing.
    pub run_guardrail_check_iff :
        (llm : Option (String → Option String)) (query : String)
        → ((run_guardrail_check strip lower search sub parse llm query).0 ≡ true) ↔ (
            Acceptable query
            × (verdict llm (mask_pii_entities strip lower search sub parse query) ≡ false))
    unfolding run_guardrail_check advanced_guardrail_check verdict
    run_guardrail_check_iff llm query =
        elim (Bool-cases (deterministic_input_check strip lower search query).0) [
          | inl y ↦
              let said =
                semantic_check_lem llm (mask_pii_entities strip lower search sub parse query) in
              rw y (
                (λ h. (
                  check_sound query y,
                  only_when (verdict llm (mask_pii_entities strip lower search sub parse query))
                      (sym said ∙ h),
                )),
                λ (a, h). rw said (rw h refl),
              )
          | inr n ↦ rw n (
            (λ h. absurd (ground (arith, h))),
            λ (a, h). absurd (ground (arith, n, check_complete query a)),
          )
        ]
