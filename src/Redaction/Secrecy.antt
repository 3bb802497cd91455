-- ===== src/Redaction/Secrecy.antt =====
-- What a redacted value can depend on.
use multi_ai_agent.Common.{
  String, Bool, true, Option, ◌≡◌, refl, ap, is_some, Option-cases, inl, inr, arith,
}
use multi_ai_agent.Redaction.{
  Json, items, dict, Items, nil, item, Entries, end, entry, mask_of, masked, redact, redact_items,
  redact_entries, redact_sensitive_data, or_setting,
}

-- Two values that may differ only in what stands under hidden keys.
module _ (hidden : String → Bool) where
  mutual
    pub data Alike : Json → Json → Type 0 where
      same : (v : Json) → Alike v v
      items_alike : {xs ys : Items} → ItemsAlike xs ys → Alike (items xs) (items ys)
      dict_alike : {es fs : Entries} → EntriesAlike es fs → Alike (dict es) (dict fs)

    pub data ItemsAlike : Items → Items → Type 0 where
      no_items : ItemsAlike nil nil
      more_items :
          {x y : Json} {xs ys : Items}
          → Alike x y
          → ItemsAlike xs ys
          → ItemsAlike (item x xs) (item y ys)

    pub data EntriesAlike : Entries → Entries → Type 0 where
      no_entries : EntriesAlike end end
      shown :
          (k : String) {v w : Json} {es fs : Entries}
          → Alike v w
          → EntriesAlike es fs
          → EntriesAlike (entry k v es) (entry k w fs)
      unseen :
          (k : String) (v w : Json) {es fs : Entries}
          → hidden k ≡ true
          → EntriesAlike es fs
          → EntriesAlike (entry k v es) (entry k w fs)

abbrev pub hides : (String → String) → Bool → String → Bool
hides lower capture k = is_some (mask_of lower capture k)

module _ (sub : String → String → String → String) (lower : String → String) (capture : Bool) where
  masked_hidden :
      (k : String) (v w : Json)
      → hides lower capture k ≡ true
      → masked (mask_of lower capture k) v ≡ masked (mask_of lower capture k) w
  masked_hidden k v w h = elim (Option-cases (mask_of lower capture k)) [
    | inl shown_key ↦ absurd (ground (arith, shown_key, h))
    | inr (m, e) ↦ rw e refl
  ]

  mutual
    unfolding redact

    redact_alike :
        {v w : Json}
        → Alike (hides lower capture) v w
        → redact sub lower capture v ≡ redact sub lower capture w
    redact_alike (same v) = refl
    redact_alike (items_alike r) = ap items (redact_items_alike r)
    redact_alike (dict_alike r) = ap dict (redact_entries_alike r)

    redact_items_alike :
        {xs ys : Items}
        → ItemsAlike (hides lower capture) xs ys
        → redact_items sub lower capture xs ≡ redact_items sub lower capture ys
    redact_items_alike no_items = refl
    redact_items_alike (more_items p r) = cc (redact_alike p, redact_items_alike r)

    redact_entries_alike :
        {es fs : Entries}
        → EntriesAlike (hides lower capture) es fs
        → redact_entries sub lower capture es ≡ redact_entries sub lower capture fs
    redact_entries_alike no_entries = refl
    redact_entries_alike (shown k p r) = cc (redact_alike p, redact_entries_alike r)
    redact_entries_alike (unseen k v w h r) = cc (
      masked_hidden k (redact sub lower capture v) (redact sub lower capture w) h,
      redact_entries_alike r,
    )

-- What a redacted value says does not depend on anything that stands, at whatever depth, under a key
-- that is hidden: one that contains a word for credentials, or that names a prompt unless prompts are
-- captured. Whatever `re.sub` does.
pub redact_sensitive_data_secret :
    (sub : String → String → String → String) (lower : String → String) (setting : Bool)
    (capture_prompts : Option Bool) (v w : Json)
    → Alike (hides lower (or_setting capture_prompts setting)) v w
    → redact_sensitive_data sub lower setting v capture_prompts
      ≡ redact_sensitive_data sub lower setting w capture_prompts
unfolding redact_sensitive_data
redact_sensitive_data_secret sub lower setting capture_prompts v w r =
    redact_alike sub lower (or_setting capture_prompts setting) r
