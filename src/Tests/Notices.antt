-- ===== src/Tests/Notices.antt =====
-- Runs of the event dispatcher and of the choice of a provider.
use multi_ai_agent.Common.{
  ℕ, String, Bool, true, false, some, none, List, [], ◌∷◌, ◌≡◌, ◌⊎◌, All, refl,
}
use multi_ai_agent.Events.{
  workflow_failed, Handling, failed, is_cancelled, new_dispatcher, publish, subscribed,
}
use multi_ai_agent.Events.Delivery.{
  Op, subscribes, unsubscribes, run_ops, wishes, wants, publish_lem,
}
use multi_ai_agent.Models.{fast, LlmProviderStrategy, offer, get_model}
use multi_ai_agent.Models.Choice.{IsBest, get_model-IsBest}

abbrev three_ops : List Op
three_ops =
    subscribes "log" [] ∷ subscribes "pager" ("workflow.failed" ∷ []) ∷ unsubscribes "log" ∷ []

abbrev raises_all : String → Handling
raises_all x = failed

none_cancelled : (y : String) → is_cancelled (raises_all y) ≡ false
none_cancelled y = refl

publish_lem_example :
    let result = publish raises_all workflow_failed (run_ops three_ops new_dispatcher) in
    (result.1 ≡ true)
    × (subscribed "pager" result.0 ≡ wants workflow_failed (wishes three_ops (λ y. none) "pager"))
publish_lem_example = publish_lem raises_all workflow_failed three_ops "pager" none_cancelled

abbrev provider : String → ℕ → Bool → LlmProviderStrategy ℕ
provider name rank keyed = record {
  provider_name = name;
  priority = rank;
  is_configured = keyed;
  create_model = λ tier. some rank;
}

abbrev two_providers : List (LlmProviderStrategy ℕ)
two_providers = provider "huggingface" 3 true ∷ provider "groq" 1 false ∷ []

get_model-IsBest_example :
    ((get_model fast two_providers ≡ none) × All (λ t. offer fast t ≡ none) two_providers)
    ⊎ ((client : ℕ) × (get_model fast two_providers ≡ some client)
        × IsBest fast two_providers client)
get_model-IsBest_example = get_model-IsBest fast two_providers
