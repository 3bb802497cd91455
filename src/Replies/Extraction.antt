-- ===== src/Replies/Extraction.antt =====
-- The JSON object of a reply is found.
use Prim.Native.Char.{Char}
use Prim.Native.String.{[], ◌∷◌, ◌++◌}
use multi_ai_agent.Common.{String, true, none, some, ◌≡◌, refl, inl, inr, arith, Bool-cases}
use multi_ai_agent.Common.Text.{same_char, absent}
use text.Mathlib.TextLemmas.{nil-append, cons-append}
use multi_ai_agent.Replies.{
  drop_prefix, before, after_last, from_first, through_last, object_in, unfenced, extract_json,
}

from_first-append :
    (c : Char) (a b : String) → absent c a ≡ true → from_first c (a ++ (c ∷ b)) ≡ some (c ∷ b)
unfolding from_first absent
from_first-append c [] b h = rw nil-append (ground arith)
from_first-append c (x ∷ a) b h = elim (Bool-cases (same_char x c)) [
  | inl y ↦ absurd (ground (arith, h, y))
  | inr n ↦ rw cons-append (rw n (from_first-append c a b (rw n at h)))
]

nothing_through : (c : Char) (b : String) → absent c b ≡ true → through_last c b ≡ none
unfolding through_last absent
nothing_through c [] h = refl
nothing_through c (x ∷ b) h = elim (Bool-cases (same_char x c)) [
  | inl y ↦ absurd (ground (arith, h, y))
  | inr n ↦ rw (nothing_through c b (rw n at h), through_last) (rw n refl)
]

through_last-append :
    (c : Char) (a b : String)
    → absent c b ≡ true
    → through_last c (a ++ (c ∷ b)) ≡ some (a ++ (c ∷ []))
unfolding through_last
through_last-append c [] b h =
    rw (nil-append, nil-append) (rw (nothing_through c b h, through_last) (ground arith))
through_last-append c (x ∷ a) b h =
    rw (cons-append, cons-append) (rw (through_last-append c a b h, through_last) refl)

-- Text before the object without an opening brace, and after it without a closing one, is passed over.
object_in_lem :
    (pre inner post : String)
    → absent "{" pre ≡ true
    → absent "}" post ≡ true
    → object_in (pre ++ ("{" ∷ (inner ++ ("}" ∷ post)))) ≡ some ("{" ∷ (inner ++ ("}" ∷ [])))
unfolding object_in
object_in_lem pre inner post h k =
    rw (object_in, from_first-append "{" pre (inner ++ ("}" ∷ post)) h)
      (rw (through_last-append "}" inner post k, through_last) refl)

ticks-append : (b : String) → "```" ++ b ≡ "`" ∷ ("`" ∷ ("`" ∷ b))
ticks-append b = rw (cons-append, cons-append, cons-append, nil-append) refl

-- A text without backticks is kept up to the closing fence.
before_fence : (a b : String) → absent "`" a ≡ true → before "```" (a ++ ("```" ++ b)) ≡ a
unfolding before absent drop_prefix
before_fence [] b h = rw (nil-append, ticks-append) refl
before_fence (x ∷ a) b h = elim (Bool-cases (same_char x "`")) [
  | inl y ↦ absurd (ground (arith, h, y))
  | inr n ↦ rw cons-append (rw (before_fence a b (rw n at h), before) (ground (arith, n)))
]

after_last_lead :
    (sep pre s t : String) → after_last sep s ≡ some t → after_last sep (pre ++ s) ≡ some t
unfolding after_last
after_last_lead sep [] s t e = rw nil-append e
after_last_lead sep (x ∷ pre) s t e =
    rw cons-append (rw (after_last_lead sep pre s t e, after_last) refl)

json-append :
    (t : String) → "```json" ++ t ≡ "`" ∷ ("`" ∷ ("`" ∷ ("j" ∷ ("s" ∷ ("o" ∷ ("n" ∷ t))))))
json-append t =
    rw
      (
        cons-append, cons-append, cons-append, cons-append, cons-append, cons-append, cons-append,
        nil-append,
      )
      refl

fenced :
    (t : String) → after_last "```json" t ≡ none → after_last "```json" ("```json" ++ t) ≡ some t
unfolding after_last drop_prefix
fenced t h = rw json-append (rw (h, after_last) refl)

-- Where a reply carries its JSON in a fence opened by the last "```json", with no backtick between that
-- and the closing fence, the object of the fence is what is taken: what stands before and after the
-- fence, and around the braces in it, does not matter.
pub extract_json_fenced :
    (strip : String → String) (content pre body tail lead inner trail : String)
    → strip content ≡ pre ++ ("```json" ++ (body ++ ("```" ++ tail)))
    → after_last "```json" (body ++ ("```" ++ tail)) ≡ none
    → absent "`" body ≡ true
    → strip body ≡ lead ++ ("{" ∷ (inner ++ ("}" ∷ trail)))
    → absent "{" lead ≡ true
    → absent "}" trail ≡ true
    → extract_json strip content ≡ some ("{" ∷ (inner ++ ("}" ∷ [])))
unfolding extract_json unfenced
extract_json_fenced strip content pre body tail lead inner trail c last clear b l t =
    let found =
      after_last_lead "```json" pre ("```json" ++ (body ++ ("```" ++ tail)))
        (body ++ ("```" ++ tail)) (fenced (body ++ ("```" ++ tail)) last) in
    rw (c, found, unfenced)
      (rw (before_fence body tail clear, b) (object_in_lem lead inner trail l t))
