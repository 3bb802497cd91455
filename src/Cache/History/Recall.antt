-- ===== src/Cache/History/Recall.antt =====
-- The cache against a map without bounds: what `get` answers, and when a value can be missing.
use multi_ai_agent.Common.{
  ℕ, ◌+◌, ◌<◌, ◌≤◌, length, sym, eq_iff, ◌∙◌, leb, Bool-cases, String, Option, none, some, List, [],
  ◌∷◌, ◌≡◌, refl, ◌⊎◌, inl, inr, arith, str_eq, Option-cases,
}
use mathlib.Core.Option.{some-injective}
use native.Mathlib.Nat.{le_refl}
use multi_ai_agent.Common.Dict.{
  Dict, lookup, lookup-insert, lookup-erase, length-insert, length-erase,
}
use multi_ai_agent.Cache.{Slot, TtlCache, get, set, evict_if_full, clear, new, ttl_or_default}
use multi_ai_agent.Cache.Reads.{
  Op, get_op, set_op, clear_op, apply, run_ops, answer, get-answer, set_lem, with_slot,
}
use multi_ai_agent.Cache.History.{
  History, record_op, history, Simulates, run_ops-Simulates, new-Simulates,
}

module _ {ℓ} {V : Type ℓ} where
  -- The clock does not run backwards, from `before` up to `later`.
  abbrev pub Ordered : ℕ → List (Op V) → ℕ → Type 0
  Ordered before [] later = before ≤ later
  Ordered before (get_op now key ∷ ops) later = (before ≤ now) × Ordered now ops later
  Ordered before (set_op now key value ttl ∷ ops) later = (before ≤ now) × Ordered now ops later
  Ordered before (clear_op ∷ ops) later = Ordered before ops later

  -- The writes since the last `clear`, on top of those already counted.
  abbrev pub writes : ℕ → List (Op V) → ℕ
  writes n [] = n
  writes n (get_op now key ∷ ops) = writes n ops
  writes n (set_op now key value ttl ∷ ops) = writes (n + 1) ops
  writes n (clear_op ∷ ops) = writes 0 ops

  -- As long as there were no more writes than there is room for, what was written is there, or has
  -- expired.
  record Remembers (default entries clock n : ℕ) (f : History V) (c : TtlCache V) : Type ℓ where
    ttl : c.default_ttl ≡ default
    capacity : c.max_entries ≡ entries
    small : n ≤ entries → length c.store ≤ n
    known :
        n ≤ entries
        → (k : String) (s : Slot V) → f k ≡ some s
        → (lookup k c.store ≡ some s) ⊎ (s.expires_at ≤ clock)

  get-Remembers :
      (default entries clock n : ℕ) (f : History V) (now : ℕ) (key : String) (c : TtlCache V)
      → clock ≤ now
      → Remembers default entries clock n f c
      → Remembers default entries now n f (get now key c).0
  unfolding get
  get-Remembers default entries clock n f now key c le h = record {
    ttl = ground (arith, h.ttl);
    capacity = ground (arith, h.capacity);
    small = λ few. ground (arith, h.small few, length-erase key c.store);
    known = λ few k s q. elim (h.known few k s q) [
      | inl there ↦ ground (arith, there, lookup-erase key k c.store, eq_iff key k)
      | inr old ↦ inr (omega (arith, old, le))
    ];
  }

  -- A cache with room keeps all its entries.
  set_with_room :
      (now : ℕ) (key : String) (value : V) (ttl : Option ℕ) (c : TtlCache V)
      → length c.store < c.max_entries
      → set now key value ttl c ≡ some (with_slot now key value ttl c c.store)
  unfolding set evict_if_full
  set_with_room now key value ttl c room = ground (arith, room)

  set-Remembers :
      (default entries clock n : ℕ) (f : History V) (now : ℕ) (key : String) (value : V)
      (ttl : Option ℕ) (c c' : TtlCache V) (room : Dict (Slot V))
      → clock ≤ now
      → set now key value ttl c ≡ some c'
      → c' ≡ with_slot now key value ttl c room
      → Remembers default entries clock n f c
      → Remembers default entries now (n + 1) (record_op default (set_op now key value ttl) f) c'
  set-Remembers default entries clock n f now key value ttl c c' room le ran made h =
      let slot : Slot V = record {
        expires_at = now + ttl_or_default ttl c.default_ttl;
        value = value;
      } in
      let kept : n + 1 ≤ entries → c' ≡ with_slot now key value ttl c c.store = λ few.
        some-injective c' (with_slot now key value ttl c c.store) (
          sym ran
          ∙ set_with_room now key value ttl c
              (omega (arith, few, h.small (omega (arith, few)), h.capacity))) in
      record {
        ttl = rw made h.ttl;
        capacity = rw made h.capacity;
        small = λ few.
            rw (kept few)
              (omega (arith, h.small (omega (arith, few)), length-insert key slot c.store));
        known = λ few k s q. rw (kept few) (elim (Bool-cases (str_eq key k)) [
          | inl mine ↦ inl (ground (arith, mine, q, h.ttl, lookup-insert key k slot c.store))
          | inr other ↦ elim (h.known (omega (arith, few)) k s (rw other at q)) [
            | inl there ↦ inl (rw lookup-insert (rw other there))
            | inr old ↦ inr (omega (arith, old, le))
          ]
        ]);
      }

  clear-Remembers :
      (default entries clock n : ℕ) (f : History V) (c : TtlCache V)
      → Remembers default entries clock n f c
      → Remembers default entries clock 0 (λ k. none) (clear c)
  unfolding clear
  clear-Remembers default entries clock n f c h = record {
    ttl = h.ttl;
    capacity = h.capacity;
    small = λ few. omega arith;
    known = λ few k s q. cc;
  }

  later-Remembers :
      (default entries clock n later : ℕ) (f : History V) (c : TtlCache V)
      → clock ≤ later
      → Remembers default entries clock n f c
      → Remembers default entries later n f c
  later-Remembers default entries clock n later f c le h = record {
    ttl = h.ttl;
    capacity = h.capacity;
    small = h.small;
    known = λ few k s q. elim (h.known few k s q) [
      | inl there ↦ inl there
      | inr old ↦ inr (omega (arith, old, le))
    ];
  }

  apply-Remembers :
      (default entries clock n later : ℕ) (f : History V) (op : Op V) (ops : List (Op V))
      (c c' : TtlCache V)
      → 0 < entries
      → Ordered clock (op ∷ ops) later
      → apply op c ≡ some c'
      → Remembers default entries clock n f c
      → (clock' : ℕ) × (m : ℕ) × Ordered clock' ops later
        × (writes n (op ∷ ops) ≡ writes m ops)
        × Remembers default entries clock' m (record_op default op f) c'
  unfolding apply
  apply-Remembers default entries clock n later f (get_op now key) ops c c' p o ran h =
      let e : (get now key c).0 ≡ c' = cc in
      (now, n, o.1, refl, rw (← e) (get-Remembers default entries clock n f now key c o.0 h))
  apply-Remembers default entries clock n later f (set_op now key value ttl) ops c c' p o ran h =
      let (room, ran', fits, ev) = set_lem now key value ttl c (omega (arith, h.capacity)) in
      let e : c' ≡ with_slot now key value ttl c room = cc in
      (
        now,
        n + 1,
        o.1,
        refl,
        set-Remembers default entries clock n f now key value ttl c c' room o.0 ran e h,
      )
  apply-Remembers default entries clock n later f clear_op ops c c' p o ran h =
      let e : clear c ≡ c' = cc in
      (clock, 0, o, refl, rw (← e) (clear-Remembers default entries clock n f c h))

  run_ops-Remembers :
      (default entries clock n later : ℕ) (f : History V) (ops : List (Op V)) (c c' : TtlCache V)
      → 0 < entries
      → Ordered clock ops later
      → run_ops ops c ≡ some c'
      → Remembers default entries clock n f c
      → Remembers default entries later (writes n ops) (history default ops f) c'
  unfolding run_ops
  run_ops-Remembers default entries clock n later f [] c c' p o ran h =
      let e : c ≡ c' = cc in rw (← e) (later-Remembers default entries clock n later f c o h)
  run_ops-Remembers default entries clock n later f (op ∷ ops) c c' p o ran h =
      elim (Option-cases (apply op c)) [
        | inl raised ↦ absurd (ground (arith, raised, ran))
        | inr (d, step) ↦
            let (clock', m, o', same, h') =
              apply-Remembers default entries clock n later f op ops c d p o step h in
            rw same (
              run_ops-Remembers default entries clock' m later (record_op default op f) ops d c' p
                o' (ground (arith, step, ran)) h')
      ]

  new-Remembers :
      (default entries : ℕ) → Remembers default entries 0 0 (λ j. none) (new default entries)
  unfolding new
  new-Remembers default entries = record {
    ttl = refl;
    capacity = refl;
    small = λ few. omega arith;
    known = λ few k s q. cc;
  }

  -- What is missing from the cache has expired, or more was written than there is room for.
  missing :
      (default entries clock n later : ℕ) (f : History V) (k : String) (c : TtlCache V)
      → clock ≤ later
      → lookup k c.store ≡ none
      → Remembers default entries clock n f c
      → (answer later (f k) ≡ none) ⊎ (entries < n)
  missing default entries clock n later f k c le gone h = elim (Option-cases (f k)) [
    | inl never ↦ inl (rw never refl)
    | inr (s, written) ↦ elim (Bool-cases (leb n entries)) [
      | inr many ↦ inr (ground (arith, many))
      | inl few ↦ elim (h.known (ground (arith, few)) k s written) [
        | inl there ↦ absurd (ground (arith, there, gone))
        | inr old ↦ inl (rw written (ground (arith, old, le)))
      ]
    ]
  ]

  -- Refinement of a map without bounds: after any sequence of operations on a new cache with a
  -- capacity of at least one, at times that do not run backwards, `get` answers what was last written
  -- for the key since the last `clear`, if its time to live has not passed, and otherwise nothing.
  -- Only where there were more writes since the last `clear` than the capacity can it answer nothing
  -- for a value whose time has not passed.
  pub get-history :
      (default entries later : ℕ) (k : String) (ops : List (Op V)) (c : TtlCache V)
      → 0 < entries
      → Ordered 0 ops later
      → run_ops ops (new default entries) ≡ some c
      → ((get later k c).1 ≡ answer later (history default ops (λ j. none) k))
        ⊎ (((get later k c).1 ≡ none) × (entries < writes 0 ops))
  get-history default entries later k ops c p o ran =
      let start : Simulates default entries (λ j. none) (new default entries) =
        new-Simulates default entries in
      let h =
        run_ops-Simulates default entries (λ j. none) ops (new default entries) c p ran start in
      let r =
        run_ops-Remembers default entries 0 0 later (λ j. none) ops (new default entries) c p o ran
          (new-Remembers default entries) in
      elim (Option-cases (lookup k c.store)) [
        | inl gone ↦
            let nothing : (get later k c).1 ≡ none = rw (get-answer, gone) in
            elim (missing default entries later (writes 0 ops) later
              (history default ops (λ j. none)) k c (le_refl later) gone r) [
                | inl expired ↦ inl (nothing ∙ sym expired)
                | inr many ↦ inr (nothing, many)
              ]
        | inr (s, there) ↦ inl (rw (get-answer, there) (rw (h.recent k s there) refl))
      ]
