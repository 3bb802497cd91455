-- ===== src/Redaction.antt =====
-- tripmate/core/logging.py: `redact_sensitive_data` on JSON values. Regular expressions are those of
-- Python's `re`: `sub pattern replacement text` is a parameter, and the table of patterns is the source's.
-- Lists and tuples are one constructor.
pub mod Secrecy
use multi_ai_agent.Common.{
  ℕ, String, Bool, true, false, not, ◌&&◌, Option, none, some, List, [], ◌∷◌, str_eq, any, is_some,
  if◌then◌else◌,
}
use text.Mathlib.Text.{find?}

mutual
  pub data Json : Type 0 where
    null : Json
    str : String → Json
    other : ℕ → Json
    items : Items → Json
    dict : Entries → Json

  pub data Items : Type 0 where
    nil : Items
    item : Json → Items → Items

  pub data Entries : Type 0 where
    end : Entries
    entry : String → Json → Entries → Entries

-- The patterns and their replacements, in the order of their use.
abbrev pub patterns : List (String × String)
patterns =
    ("gsk_[a-zA-Z0-9_\\-]{16,}", "[REDACTED_GROQ_KEY]")
    ∷ ("sk-or-v1-[a-zA-Z0-9_\\-]{16,}", "[REDACTED_OPENROUTER_KEY]")
    ∷ ("sk-[a-zA-Z0-9_\\-]{20,}", "[REDACTED_API_KEY]")
    ∷ ("tm_live_[a-zA-Z0-9_\\-]{16,}", "[REDACTED_API_KEY]")
    ∷ ("tvly-[a-zA-Z0-9_\\-]{10,}", "[REDACTED_TAVILY_KEY]")
    ∷ ("hf_[a-zA-Z0-9_\\-]{16,}", "[REDACTED_HF_KEY]")
    ∷ (
      "(?i)(api[_-]?key\\s*[:=]\\s*[\"\\']?)([a-zA-Z0-9_\\-]{10,})([\"\\']?)",
      "\\1[REDACTED_API_KEY]\\3",
    )
    ∷ (
      "(?i)(Authorization\\s*:\\s*(?:Bearer|Basic|Token)?\\s*)([a-zA-Z0-9_\\-\\.=]+)",
      "\\1[REDACTED_AUTH_TOKEN]",
    )
    ∷ ("(?i)(Bearer\\s+)([a-zA-Z0-9_\\-\\.=]{10,})", "\\1[REDACTED_TOKEN]")
    ∷ (
      "(?i)(token\\s*[:=]\\s*[\"\\']?)([a-zA-Z0-9_\\-\\.]{8,})([\"\\']?)", "\\1[REDACTED_TOKEN]\\3",
    )
    ∷ ("eyJ[a-zA-Z0-9_-]{10,}\\.eyJ[a-zA-Z0-9_-]{10,}\\.[a-zA-Z0-9_-]{10,}", "[REDACTED_JWT]")
    ∷ ("\\b[a-zA-Z0-9_.+-]+@[a-zA-Z0-9-]+\\.[a-zA-Z0-9-.]+\\b", "[REDACTED_EMAIL]")
    ∷ (
      "\\b(?:\\+?\\d{1,3}[-.\\s]?)?\\(?\\d{3}\\)?[-.\\s]?\\d{3}[-.\\s]?\\d{4}\\b",
      "[REDACTED_PHONE]",
    )
    ∷ ("\\b(?:\\d{4}[-\\s]?){3}\\d{4}\\b", "[REDACTED_CREDIT_CARD]")
    ∷ ("\\b\\d{3}-\\d{2}-\\d{4}\\b", "[REDACTED_SSN]")
    ∷ []

abbrev pub prompt_pattern : String × String
prompt_pattern = ("(?i)(prompt\\s*[:=]\\s*)([^\\n\\r,{}]+)", "\\1[REDACTED_PROMPT]")

abbrev pub prompt_keys : List String
prompt_keys = "prompt" ∷ "messages" ∷ "user_query" ∷ "query" ∷ "user_message" ∷ "input" ∷ []

abbrev pub credential_words : List String
credential_words = "password" ∷ "secret" ∷ "token" ∷ "auth" ∷ "api_key" ∷ "apikey" ∷ []

-- What stands for the value under a key that must not be shown; `none` for any other key.
unfoldable pub mask_of : (String → String) → Bool → String → Option String
mask_of lower capture key =
    let key_str = lower key in
    if not capture && any (str_eq key_str) prompt_keys
    then some "[REDACTED_PROMPT]"
    else if any (λ s. is_some (find? key_str s)) credential_words
    then some "[REDACTED_CREDENTIAL]"
    else none

abbrev pub masked : Option String → Json → Json
masked none v = v
masked (some mask) v = str mask

abbrev pub or_setting : Option Bool → Bool → Bool
or_setting none setting = setting
or_setting (some capture) setting = capture

module _ (sub : String → String → String → String) where
  unfoldable pub sub_all : List (String × String) → String → String
  sub_all [] text = text
  sub_all ((regex, replacement) ∷ rest) text = sub_all rest (sub regex replacement text)

  unfoldable pub redact_text : Bool → String → String
  unfolding sub_all
  redact_text capture text =
      let cleaned = sub_all patterns text in
      if capture then cleaned else sub prompt_pattern.0 prompt_pattern.1 cleaned

  module _ (lower : String → String) (capture : Bool) where
    unfoldable mutual
      pub redact : Json → Json
      redact null = null
      redact (str s) = str (redact_text capture s)
      redact (other n) = other n
      redact (items xs) = items (redact_items xs)
      redact (dict es) = dict (redact_entries es)

      pub redact_items : Items → Items
      redact_items nil = nil
      redact_items (item x xs) = item (redact x) (redact_items xs)

      pub redact_entries : Entries → Entries
      redact_entries end = end
      redact_entries (entry k v es) =
          entry k (masked (mask_of lower capture k) (redact v)) (redact_entries es)

  -- Without an argument, the setting CAPTURE_PROMPTS decides.
  unfoldable pub redact_sensitive_data : (String → String) → Bool → Json → Option Bool → Json
  redact_sensitive_data lower setting val capture_prompts =
      redact lower (or_setting capture_prompts setting) val
