-- ===== src/Guardrail/Tags/Bounds.antt =====
-- What an agent is shown of a tool's answer is bounded.
use Prim.Native.Char.{Char}
use Prim.Native.String.{[], ◌∷◌, count}
use multi_ai_agent.Common.{
  ℕ, zero, suc, ◌+◌, ◌-◌, ◌≤◌, String, Bool, false, List, ◌≡◌, inl, inr, arith, ltb, Bool-cases,
}
use multi_ai_agent.Common.Text.{count-prefix}
use text.Mathlib.TextLemmas.{length-cons, length-append}
use multi_ai_agent.Guardrail.{all_delimiter_tags}
use multi_ai_agent.Guardrail.Tags.{begins, without, strip_tags, capped, wrap_untrusted_tool_data}

at_most : (a b : ℕ) → ltb a b ≡ false → b ≤ a
at_most a b h = ground arith

module _ (same : Char → Char → Bool) where
  count-without : (tag : String) (skip : ℕ) (s : String) → count (without same tag skip s) ≤ count s
  unfolding without
  count-without tag skip [] = omega arith
  count-without tag (suc skip) (x ∷ s) =
      let m = count-without tag skip s in rw length-cons (omega arith)
  count-without tag zero (x ∷ s) = elim (Bool-cases (begins same tag (x ∷ s))) [
    | inl y ↦
        let m = count-without tag (count tag - 1) s in
        rw (y, without) (rw length-cons (omega arith))
    | inr n ↦
        let m = count-without tag zero s in
        rw (n, without) (rw (length-cons, length-cons) (omega arith))
  ]

  count-strip_tags : (tags : List String) (s : String) → count (strip_tags same tags s) ≤ count s
  unfolding strip_tags
  count-strip_tags List.[] s = omega arith
  count-strip_tags (List.◌∷◌ tag tags) s =
      let m = count-without tag 0 s in
      let r = count-strip_tags tags (without same tag 0 s) in omega arith

  count-capped :
      (utf8_size : String → ℕ) (max_bytes : ℕ) (text : String)
      → ((s : String) → count s ≤ utf8_size s)
      → count (capped utf8_size max_bytes text) ≤ max_bytes + 22
  unfolding capped
  count-capped utf8_size max_bytes text wide = elim (Bool-cases (ltb max_bytes (utf8_size text))) [
    | inl y ↦ let m = count-prefix max_bytes text in rw y (rw length-append (omega arith))
    | inr n ↦ let m = wide text in rw n (omega (arith, at_most max_bytes (utf8_size text) n))
  ]

  -- Where no character takes less than a byte, what is shown of a tool's answer, with the tags around
  -- it, has at most 67 characters more than the limit, whatever the answer holds.
  pub wrap_untrusted_tool_data_bound :
      (utf8_size : String → ℕ) (text : String) (max_bytes : ℕ)
      → ((s : String) → count s ≤ utf8_size s)
      → count (wrap_untrusted_tool_data same utf8_size text max_bytes) ≤ max_bytes + 67
  unfolding wrap_untrusted_tool_data
  wrap_untrusted_tool_data_bound utf8_size text max_bytes wide =
      let m = count-capped utf8_size max_bytes text wide in
      let r = count-strip_tags all_delimiter_tags (capped utf8_size max_bytes text) in
      rw (length-append, length-append) (omega arith)
