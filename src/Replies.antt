-- ===== src/Replies.antt =====
-- How tripmate/agents/{critic,guardrail,planner}.py find the JSON object in the reply of a model.
-- `strip` is that of Python's `str`.
pub mod Extraction
use Prim.Native.Char.{Char}
use Prim.Native.String.{[], ◌∷◌, ◌++◌}
use multi_ai_agent.Common.{String, Bool, true, false, Option, none, some, is_some, if◌then◌else◌}
use multi_ai_agent.Common.Text.{same_char}

-- The rest of a text after a prefix.
unfoldable pub drop_prefix : String → String → Option String
drop_prefix [] s = some s
drop_prefix (c ∷ p) [] = none
drop_prefix (c ∷ p) (x ∷ s) = let rest = drop_prefix p s in if same_char c x then rest else none

-- `s.split(sep)[0]`
unfoldable pub before : String → String → String
unfolding drop_prefix
before sep [] = []
before sep (x ∷ s) =
    let rest = before sep s in if is_some (drop_prefix sep (x ∷ s)) then [] else x ∷ rest

-- What follows the first `sep`: `s.split(sep)[1]` is the part of it before the next.
unfoldable pub after : String → String → Option String
unfolding drop_prefix
after sep [] = none
after sep (x ∷ s) =
    let rest = after sep s in elim (drop_prefix sep (x ∷ s)) [ none ↦ rest | some t ↦ some t ]

-- `s.split(sep)[-1]` where `sep` is in `s`, for a `sep` that does not overlap itself.
unfoldable pub after_last : String → String → Option String
unfolding drop_prefix
after_last sep [] = none
after_last sep (x ∷ s) =
    let here = drop_prefix sep (x ∷ s) in elim (after_last sep s) [ none ↦ here | some t ↦ some t ]

-- The text from the first `c` on, and the text up to the last one.
unfoldable pub from_first : Char → String → Option String
from_first c [] = none
from_first c (x ∷ s) = let rest = from_first c s in if same_char x c then some (x ∷ s) else rest

unfoldable pub through_last : Char → String → Option String
through_last c [] = none
through_last c (x ∷ s) =
    let here = if same_char x c then some (x ∷ []) else none in
    elim (through_last c s) [ none ↦ here | some t ↦ some (x ∷ t) ]

-- `cleaned[start : end + 1]`. Where the last brace stands before the first, the slice is empty, and
-- `json.loads` raises: `none` too.
unfoldable pub object_in : String → Option String
unfolding from_first through_last
object_in s = elim (from_first "{" s) [ none ↦ none | some t ↦ through_last "}" t ]

module _ (strip : String → String) where
  unfoldable pub unfenced : String → String
  unfolding before after after_last
  unfenced cleaned = elim (after_last "```json" cleaned) [
    | some t ↦ strip (before "```" t)
    | none ↦ elim (after "```" cleaned) [ some t ↦ strip (before "```" t) | none ↦ cleaned ]
  ]

  unfoldable pub extract_json : String → Option String
  unfolding unfenced object_in
  extract_json content = object_in (unfenced (strip content))
