-- ===== src/Audit/Retention.antt =====
-- The audit log beside one that forgets nothing.
use mathlib.Core.List.{append_assoc, append-nil}
use multi_ai_agent.Common.{
  none, ℕ, zero, suc, ◌-◌, ◌≤◌, String, Bool, List, [], ◌∷◌, ◌++◌, ◌≡◌, refl, sym, ◌∙◌, ap, inl,
  inr, arith, ltb, length, length-append, map, if◌then◌else◌, Bool-cases,
}
use multi_ai_agent.Audit.{
  AuditEntry, AuditLogger, AuditRecord, Context, new_logger, pop_first, entry_of, record_entry,
  or_no_details,
}
use multi_ai_agent.Redaction.{Json, dict, redact_sensitive_data}

abbrev drop {ℓ} : {A : Type ℓ} → ℕ → List A → List A
drop zero xs = xs
drop (suc n) [] = []
drop (suc n) (x ∷ xs) = drop n xs

-- The last `n` of a list.
abbrev pub last_of {ℓ} : {A : Type ℓ} → ℕ → List A → List A
last_of n xs = drop (length xs - n) xs

module _ {ℓ} {A : Type ℓ} where
  length-drop : (k : ℕ) (xs : List A) → length (drop k xs) ≡ length xs - k
  length-drop zero xs = omega arith
  length-drop (suc k) [] = omega arith
  length-drop (suc k) (x ∷ xs) = omega (arith, length-drop k xs)

  drop-append :
      (k : ℕ) (xs : List A) (y : A) → k ≤ length xs → drop k (xs ++ y ∷ []) ≡ drop k xs ++ y ∷ []
  drop-append zero xs y h = refl
  drop-append (suc k) [] y h = absurd (omega arith)
  drop-append (suc k) (x ∷ xs) y h = drop-append k xs y (omega arith)

  pop_first-drop : (k : ℕ) (xs : List A) → pop_first (drop k xs) ≡ drop (suc k) xs
  pop_first-drop zero [] = refl
  pop_first-drop zero (x ∷ xs) = refl
  pop_first-drop (suc k) [] = refl
  pop_first-drop (suc k) (x ∷ xs) = pop_first-drop k xs

  -- One more entry, and the first one goes where there are too many.
  last_of-append :
      (n : ℕ) (xs : List A) (y : A)
      → let longer = last_of n xs ++ y ∷ [] in
        (if ltb n (length longer) then pop_first longer else longer) ≡ last_of n (xs ++ y ∷ [])
  last_of-append n xs y =
      let size = length-append xs (y ∷ []) in
      let kept = length-append (last_of n xs) (y ∷ []) in
      let left = length-drop (length xs - n) xs in
      elim (Bool-cases (ltb n (length (last_of n xs ++ y ∷ [])))) [
        | inl full ↦
            let k = length xs - n in
            let count : length (xs ++ y ∷ []) - n ≡ suc k =
              ground (arith, size, kept, left, full) in
            rw full (
              ap pop_first (sym (drop-append k xs y (omega arith)))
              ∙ pop_first-drop k (xs ++ y ∷ [])
              ∙ ap (λ j. drop j (xs ++ y ∷ [])) (sym count))
        | inr roomy ↦
            let before : length xs - n ≡ 0 = ground (arith, size, kept, left, roomy) in
            let after : length (xs ++ y ∷ []) - n ≡ 0 = ground (arith, size, kept, left, roomy) in
            rw roomy (rw (before, after) refl)
      ]

map-drop {ℓ κ} :
    {A : Type ℓ} {B : Type κ} (f : A → B) (k : ℕ) (xs : List A)
    → map f (drop k xs) ≡ drop k (map f xs)
map-drop f zero xs = refl
map-drop f (suc k) [] = refl
map-drop f (suc k) (x ∷ xs) = map-drop f k xs

same_length {ℓ κ} :
    {A : Type ℓ} {B : Type κ} (f : A → B) (xs : List A) → length (map f xs) ≡ length xs
same_length f [] = refl
same_length f (x ∷ xs) = omega (arith, same_length f xs)

map-last_of {ℓ κ} :
    {A : Type ℓ} {B : Type κ} (f : A → B) (n : ℕ) (xs : List A)
    → map f (last_of n xs) ≡ last_of n (map f xs)
map-last_of f n xs = rw (same_length f xs) (map-drop f (length xs - n) xs)

module _ (sub : String → String → String → String) (lower : String → String) (setting : Bool) where
  unfoldable pub run_records : List (Context × AuditRecord) → AuditLogger → AuditLogger
  run_records [] l = l
  run_records ((ctx, r) ∷ rs) l = run_records rs (record_entry sub lower setting ctx r l).0

  abbrev pub entries_of : List (Context × AuditRecord) → List AuditEntry
  entries_of = map (λ p. entry_of sub lower setting p.0 p.1)

  run_records-last_of :
      (rs : List (Context × AuditRecord)) (before : List AuditEntry) (l : AuditLogger)
      → l.entries ≡ last_of l.max_retained_entries before
      → (run_records rs l).entries ≡ last_of l.max_retained_entries (before ++ entries_of rs)
  unfolding run_records record_entry
  run_records-last_of [] before l e = rw append-nil e
  run_records-last_of ((ctx, r) ∷ rs) before l e =
      let made = entry_of sub lower setting ctx r in
      let step : (record_entry sub lower setting ctx r l).0.entries
          ≡ last_of l.max_retained_entries (before ++ made ∷ []) =
        rw e (last_of-append l.max_retained_entries before made) in
      run_records-last_of rs (before ++ made ∷ []) (record_entry sub lower setting ctx r l).0 step
      ∙ ap (last_of l.max_retained_entries) (append_assoc before (made ∷ []) (entries_of rs))

  nothing : (n : ℕ) → 0 - n ≡ 0
  nothing n = omega arith

  -- What is to be kept of the details that a caller passes.
  abbrev pub redacted : Context × AuditRecord → Json
  redacted p = redact_sensitive_data sub lower setting (dict (or_no_details p.1.details)) none

  details_of :
      (rs : List (Context × AuditRecord)) → map (λ e. e.details) (entries_of rs) ≡ map redacted rs
  unfolding entry_of
  details_of [] = refl
  details_of (r ∷ rs) = ap (λ js. redacted r ∷ js) (details_of rs)

  -- Refinement of a log that forgets nothing: after any sequence of records a new logger holds the
  -- entries of the last of them, as many as it may retain, in their order; and the details that it
  -- holds are those that were passed, redacted.
  pub run_records_lem :
      (n : ℕ) (rs : List (Context × AuditRecord))
      → let kept = (run_records rs (new_logger n)).entries in
        (kept ≡ last_of n (entries_of rs))
        × (map (λ e. e.details) kept ≡ last_of n (map redacted rs))
  unfolding new_logger
  run_records_lem n rs =
      let kept = run_records-last_of rs [] (new_logger n) (rw (nothing n) refl) in
      (
        kept,
        ap (map (λ e. e.details)) kept
            ∙ map-last_of (λ (e : AuditEntry). e.details) n (entries_of rs)
            ∙ ap (last_of n) (details_of rs),
      )
