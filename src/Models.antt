-- ===== src/Models.antt =====
-- tripmate/services/model_router.py and tripmate/strategies/llm_strategies.py: the choice of a model's
-- provider. Building a client is the work of LangChain: `build` gives it for a provider, a model and a
-- key, or `none` where it raises.
pub mod Choice
use multi_ai_agent.Common.{
  ℕ, ◌≤◌, String, Bool, true, false, Option, none, some, List, [], ◌∷◌, ◌++◌, leb, str_eq, truthy,
  any, is_some, if◌then◌else◌,
}
use multi_ai_agent.Store.{or_empty}

pub data ModelTier : Type 0 where
  fast reasoning specialized : ModelTier

pub record LlmProviderStrategy {ℓ} (C : Type ℓ) : Type ℓ where
  pub provider_name : String
  pub priority : ℕ
  pub is_configured : Bool
  pub create_model : ModelTier → Option C

-- The keys of the settings, the environment and `str.strip`.
pub record Environment : Type 0 where
  pub groq_api_key : Option String
  pub openrouter_api_key : Option String
  pub huggingface_api_key : Option String
  pub getenv : String → Option String
  pub strip : String → String

-- `a or b`
abbrev pub or_else : Option String → Option String → Option String
or_else a b = if truthy (or_empty a) then a else b

abbrev pub get_or : Option String → String → String
get_or none d = d
get_or (some s) d = s

-- An empty text stands for None.
unfoldable pub groq_key : Environment → String
groq_key e = e.strip (or_empty (or_else e.groq_api_key (e.getenv "GROQ_API_KEY")))

unfoldable pub openrouter_key : Environment → String
openrouter_key e = e.strip (or_empty (or_else e.openrouter_api_key (e.getenv "OPENROUTER_API_KEY")))

unfoldable pub huggingface_key : Environment → String
huggingface_key e = e.strip (
    or_empty (
      or_else e.huggingface_api_key
        (or_else (e.getenv "HUGGINGFACE_API_KEY") (e.getenv "HUGGING_FACE_API_KEY"))))

unfoldable pub groq_model : Environment → ModelTier → String
groq_model e fast = get_or (e.getenv "FAST_LLM_MODEL") "llama-3.1-8b-instant"
groq_model e reasoning = get_or (e.getenv "REASONING_LLM_MODEL") "llama-3.3-70b-versatile"
groq_model e specialized = "llama-3.3-70b-versatile"

unfoldable pub openrouter_model : Environment → ModelTier → String
openrouter_model e fast =
    get_or (e.getenv "OPENROUTER_FAST_MODEL")
      (get_or (e.getenv "OPENROUTER_MODEL") "meta-llama/llama-3.1-8b-instruct:free")
openrouter_model e _ =
    get_or (e.getenv "OPENROUTER_REASONING_MODEL")
      (get_or (e.getenv "OPENROUTER_MODEL") "meta-llama/llama-3.3-70b-instruct:free")

unfoldable pub huggingface_model : Environment → ModelTier → String
huggingface_model e fast =
    get_or (e.getenv "HUGGINGFACE_FAST_MODEL") "meta-llama/Meta-Llama-3-8B-Instruct"
huggingface_model e _ =
    get_or (e.getenv "HUGGINGFACE_REASONING_MODEL")
      (get_or (e.getenv "HUGGINGFACE_MODEL") "meta-llama/Llama-3.3-70B-Instruct")

module _ {ℓ} {C : Type ℓ} where
  -- A provider of this name, rank and key, whose clients are built from a model's name.
  abbrev strategy_of : String → ℕ → String → (ModelTier → Option C) → LlmProviderStrategy C
  strategy_of name rank key make = record {
    provider_name = name;
    priority = rank;
    is_configured = truthy key;
    create_model = λ tier. if truthy key then make tier else none;
  }

  unfoldable pub default_strategies :
      (String → String → String → Option C) → Environment → List (LlmProviderStrategy C)
  unfolding groq_key openrouter_key huggingface_key groq_model openrouter_model huggingface_model
  default_strategies build e =
      strategy_of "groq" 1 (groq_key e) (λ tier. build "groq" (groq_model e tier) (groq_key e))
      ∷ strategy_of "openrouter" 2 (openrouter_key e) (λ tier.
        build "https://openrouter.ai/api/v1" (openrouter_model e tier) (openrouter_key e))
      ∷ strategy_of "huggingface" 3 (huggingface_key e) (λ tier.
        build "https://router.huggingface.co/v1" (huggingface_model e tier) (huggingface_key e))
      ∷ []

  -- `sorted(strategies, key=priority)`, which keeps the order of equals.
  unfoldable pub insert_by_priority :
      LlmProviderStrategy C → List (LlmProviderStrategy C) → List (LlmProviderStrategy C)
  insert_by_priority s [] = s ∷ []
  insert_by_priority s (t ∷ ts) =
      let later = insert_by_priority s ts in
      if leb s.priority t.priority then s ∷ t ∷ ts else t ∷ later

  unfoldable pub sort_by_priority : List (LlmProviderStrategy C) → List (LlmProviderStrategy C)
  unfolding insert_by_priority
  sort_by_priority [] = []
  sort_by_priority (s ∷ ss) = insert_by_priority s (sort_by_priority ss)

  unfoldable pub register_strategy :
      LlmProviderStrategy C → List (LlmProviderStrategy C) → List (LlmProviderStrategy C)
  unfolding sort_by_priority
  register_strategy s ss = sort_by_priority (ss ++ s ∷ [])

  unfoldable pub has_active_provider : List (LlmProviderStrategy C) → Bool
  has_active_provider ss = any (λ s. s.is_configured) ss

  unfoldable pub first_configured : List (LlmProviderStrategy C) → Option String
  first_configured [] = none
  first_configured (s ∷ ss) =
      let rest = first_configured ss in if s.is_configured then some s.provider_name else rest

  unfoldable pub get_active_provider_name : List (LlmProviderStrategy C) → Option String
  unfolding sort_by_priority first_configured
  get_active_provider_name ss = first_configured (sort_by_priority ss)

  -- What a provider has to offer: `none` without a key, or where no client could be made.
  abbrev pub offer : ModelTier → LlmProviderStrategy C → Option C
  offer tier s = if s.is_configured then s.create_model tier else none

  unfoldable pub first_offer : ModelTier → List (LlmProviderStrategy C) → Option C
  first_offer tier [] = none
  first_offer tier (s ∷ ss) =
      let rest = first_offer tier ss in
      elim (offer tier s) [ none ↦ rest | some client ↦ some client ]

  unfoldable pub get_model : ModelTier → List (LlmProviderStrategy C) → Option C
  unfolding sort_by_priority first_offer
  get_model tier ss = first_offer tier (sort_by_priority ss)
