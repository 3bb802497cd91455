-- ===== src/Models/Choice.antt =====
-- Which provider serves a request for a model.
use multi_ai_agent.Common.{
  ◌≤◌, none, some, List, [], ◌∷◌, ◌≡◌, refl, ◌∙◌, ◌⊎◌, inl, inr, arith, leb, All, All-imp,
  Bool-cases, Option-cases,
}
use multi_ai_agent.Models.{
  ModelTier, LlmProviderStrategy, insert_by_priority, sort_by_priority, offer, first_offer,
  get_model,
}

module _ {C : Type 0} where
  -- A strategy of the list.
  abbrev pub In : LlmProviderStrategy C → List (LlmProviderStrategy C) → Type 0
  In s [] = ⊥
  In s (t ∷ ts) = (s ≡ t) ⊎ In s ts

  abbrev IsSorted : List (LlmProviderStrategy C) → Type 0
  IsSorted [] = Unit
  IsSorted (s ∷ ss) = All (λ t. s.priority ≤ t.priority) ss × IsSorted ss

  All-insert_by_priority {κ} :
      (P : LlmProviderStrategy C → Type κ) (s : LlmProviderStrategy C)
      (ss : List (LlmProviderStrategy C))
      → P s
      → All P ss
      → All P (insert_by_priority s ss)
  unfolding insert_by_priority
  All-insert_by_priority P s [] p h = (p, tt)
  All-insert_by_priority P s (t ∷ ts) p h = elim (Bool-cases (leb s.priority t.priority)) [
    | inl y ↦ rw y (p, h)
    | inr n ↦ rw n (h.0, All-insert_by_priority P s ts p h.1)
  ]

  All-sort_by_priority {κ} :
      (P : LlmProviderStrategy C → Type κ) (ss : List (LlmProviderStrategy C))
      → All P ss
      → All P (sort_by_priority ss)
  unfolding sort_by_priority
  All-sort_by_priority P [] h = tt
  All-sort_by_priority P (s ∷ ss) h =
      All-insert_by_priority P s (sort_by_priority ss) h.0 (All-sort_by_priority P ss h.1)

  -- What holds of every strategy of the sorted list holds of those that were sorted.
  All-inserted {κ} :
      (P : LlmProviderStrategy C → Type κ) (s : LlmProviderStrategy C)
      (ss : List (LlmProviderStrategy C))
      → All P (insert_by_priority s ss)
      → P s × All P ss
  unfolding insert_by_priority
  All-inserted P s [] h = h
  All-inserted P s (t ∷ ts) h = elim (Bool-cases (leb s.priority t.priority)) [
    | inl y ↦ (rw y at h)
    | inr n ↦
        let k : P t × All P (insert_by_priority s ts) = (rw n at h) in
        let (p, q) = All-inserted P s ts k.1 in (p, (k.0, q))
  ]

  All-sorted {κ} :
      (P : LlmProviderStrategy C → Type κ) (ss : List (LlmProviderStrategy C))
      → All P (sort_by_priority ss)
      → All P ss
  unfolding sort_by_priority
  All-sorted P [] h = tt
  All-sorted P (s ∷ ss) h =
      let (p, q) = All-inserted P s (sort_by_priority ss) h in (p, All-sorted P ss q)

  insert_by_priority-IsSorted :
      (s : LlmProviderStrategy C) (ss : List (LlmProviderStrategy C))
      → IsSorted ss
      → IsSorted (insert_by_priority s ss)
  unfolding insert_by_priority
  insert_by_priority-IsSorted s [] h = (tt, tt)
  insert_by_priority-IsSorted s (t ∷ ts) h = elim (Bool-cases (leb s.priority t.priority)) [
    | inl y ↦
        let below : s.priority ≤ t.priority = ground (arith, y) in
        rw y ((below, All-imp ts (λ u q. omega (arith, below, q)) h.0), h)
    | inr n ↦
        let above : t.priority ≤ s.priority = ground (arith, n) in
        rw n (
          All-insert_by_priority (λ u. t.priority ≤ u.priority) s ts above h.0,
          insert_by_priority-IsSorted s ts h.1,
        )
  ]

  sort_by_priority-IsSorted : (ss : List (LlmProviderStrategy C)) → IsSorted (sort_by_priority ss)
  unfolding sort_by_priority
  sort_by_priority-IsSorted [] = tt
  sort_by_priority-IsSorted (s ∷ ss) =
      insert_by_priority-IsSorted s (sort_by_priority ss) (sort_by_priority-IsSorted ss)

  All-In {κ} :
      (P : LlmProviderStrategy C → Type κ) (ss : List (LlmProviderStrategy C))
      → ((s : LlmProviderStrategy C) → In s ss → P s)
      → All P ss
  All-In P [] f = tt
  All-In P (s ∷ ss) f = (f s (inl refl), All-In P ss (λ t i. f t (inr i)))

  -- The best offer: of a strategy that has one, and no better ranked strategy has one.
  pub record IsBest (tier : ModelTier) (ss : List (LlmProviderStrategy C)) (client : C)
      : Type 0 where
    pub chosen : LlmProviderStrategy C
    pub listed : In chosen ss
    pub offers : offer tier chosen ≡ some client
    pub first_ranked : All (λ t. (offer tier t ≡ none) ⊎ (chosen.priority ≤ t.priority)) ss

  first_offer_best {κ} :
      (P : LlmProviderStrategy C → Type κ) (tier : ModelTier) (ss : List (LlmProviderStrategy C))
      (client : C)
      → IsSorted ss
      → All P ss
      → first_offer tier ss ≡ some client
      → (s : LlmProviderStrategy C) × P s
        × (offer tier s ≡ some client)
        × All (λ t. (offer tier t ≡ none) ⊎ (s.priority ≤ t.priority)) ss
  unfolding first_offer
  first_offer_best P tier [] client sorted h e = absurd (ground (arith, e))
  first_offer_best P tier (s ∷ ss) client sorted h e = elim (Option-cases (offer tier s)) [
    | inl nothing ↦
        let (t, p, offered, others) =
          first_offer_best P tier ss client sorted.1 h.1 (rw (nothing, first_offer) at e) in
        (t, p, offered, (inl nothing, others))
    | inr (c, offered) ↦
        let same : some c ≡ some client = (rw (offered, first_offer) at e) in
        (s, h.0, offered ∙ same, (inr (omega arith), All-imp ss (λ t le. inr le) sorted.0))
  ]

  no_offers :
      (tier : ModelTier) (ss : List (LlmProviderStrategy C))
      → first_offer tier ss ≡ none
      → All (λ t. offer tier t ≡ none) ss
  unfolding first_offer
  no_offers tier [] e = tt
  no_offers tier (s ∷ ss) e = elim (Option-cases (offer tier s)) [
    | inl nothing ↦ (nothing, no_offers tier ss (rw (nothing, first_offer) at e))
    | inr (c, offered) ↦ absurd (ground (arith, offered, e))
  ]

  -- In whatever order the strategies were registered, the router gives a client exactly where one of
  -- them has a key and can make one, and then it is that of a strategy of the list that is ranked
  -- first among these.
  pub get_model-IsBest :
      (tier : ModelTier) (ss : List (LlmProviderStrategy C))
      → ((get_model tier ss ≡ none) × All (λ t. offer tier t ≡ none) ss)
        ⊎ ((client : C) × (get_model tier ss ≡ some client) × IsBest tier ss client)
  unfolding get_model
  get_model-IsBest tier ss =
      let sorted = sort_by_priority ss in
      elim (Option-cases (first_offer tier sorted)) [
        | inl nothing ↦
            inl (nothing, All-sorted (λ t. offer tier t ≡ none) ss (no_offers tier sorted nothing))
        | inr (client, given) ↦
            let members : All (λ s. In s ss) sorted =
              All-sort_by_priority (λ s. In s ss) ss (All-In (λ s. In s ss) ss (λ s i. i)) in
            let (s, listed, offered, ranked) =
              first_offer_best (λ s. In s ss) tier sorted client (sort_by_priority-IsSorted ss)
                members given in
            inr (
              client,
              given,
              record {
                chosen = s;
                listed = listed;
                offers = offered;
                first_ranked =
                    All-sorted (λ t. (offer tier t ≡ none) ⊎ (s.priority ≤ t.priority)) ss ranked;
              },
            )
      ]
