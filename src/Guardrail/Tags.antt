-- ===== src/Guardrail/Tags.antt =====
-- tripmate/agents/guardrail.py: what is untrusted stands between tags, from which the tags it holds
-- itself are removed. `same` compares two characters without case, as `re.IGNORECASE` does; `utf8_size`
-- is the length of a text's encoding.
pub mod Bounds
use Prim.Native.Char.{Char}
use Prim.Native.String.{[], ◌∷◌, ◌++◌, count}
use multi_ai_agent.Common.{ℕ, zero, suc, ◌-◌, String, Bool, true, false, List, ltb, if◌then◌else◌}
use multi_ai_agent.Common.Text.{prefix}
use multi_ai_agent.Guardrail.{all_delimiter_tags}

unfoldable pub capped : (String → ℕ) → ℕ → String → String
unfolding prefix
capped utf8_size max_bytes text =
    if ltb max_bytes (utf8_size text)
    then prefix max_bytes text ++ "\n...[truncated output]"
    else text

module _ (same : Char → Char → Bool) where
  unfoldable pub begins : String → String → Bool
  begins [] s = true
  begins (c ∷ p) [] = false
  begins (c ∷ p) (x ∷ s) = let rest = begins p s in if same c x then rest else false

  -- `re.sub(re.escape(tag), "", text)`, where `skip` characters of a match are still to be dropped.
  unfoldable pub without : String → ℕ → String → String
  unfolding begins
  without tag skip [] = []
  without tag (suc skip) (x ∷ s) = without tag skip s
  without tag zero (x ∷ s) = elim (begins tag (x ∷ s)) [
    | true ↦ without tag (count tag - 1) s
    | false ↦ x ∷ without tag zero s
  ]

  unfoldable pub strip_tags : List String → String → String
  unfolding without
  strip_tags List.[] text = text
  strip_tags (List.◌∷◌ tag tags) text = strip_tags tags (without tag 0 text)

  abbrev pub strip_delimiter_tags : String → String
  strip_delimiter_tags text = strip_tags all_delimiter_tags text

  unfoldable pub wrap_untrusted_user_input : (String → String) → String → String
  unfolding strip_tags
  wrap_untrusted_user_input strip text =
      "<untrusted_user_query>\n"
      ++ (strip (strip_delimiter_tags text) ++ "\n</untrusted_user_query>")

  unfoldable pub wrap_untrusted_tool_data : (String → ℕ) → String → ℕ → String
  unfolding strip_tags capped
  wrap_untrusted_tool_data utf8_size text max_bytes =
      "<untrusted_tool_data>\n"
      ++ (strip_delimiter_tags (capped utf8_size max_bytes text) ++ "\n</untrusted_tool_data>")
