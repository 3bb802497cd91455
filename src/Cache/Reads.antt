-- ===== src/Cache/Reads.antt =====
-- What `get` returns after `set`, and the counters and the size after any sequence of operations.
use text.Mathlib.TextPositions.{eq_refl}
use multi_ai_agent.Common.{
  ℕ, ◌+◌, ◌≤◌, ◌<◌, String, false, Option, none, some, List, [], ◌∷◌, ltb, length, arith, ◌≡◌, refl,
  ◌≢◌, ◌⊎◌, inl, inr, ◌∙◌, str_eq, eq_iff, if◌then◌else◌, Option-cases,
}
use multi_ai_agent.Common.Dict.{Dict, lookup, insert, lookup-insert, length-insert, length-erase}
use multi_ai_agent.Cache.{Slot, TtlCache, get, set, clear, new, ttl_or_default}
use multi_ai_agent.Cache.Bounds.{Evicts, evict_if_full_total}

module _ {ℓ} {V : Type ℓ} where
  abbrev pub with_slot : ℕ → String → V → Option ℕ → TtlCache V → Dict (Slot V) → TtlCache V
  with_slot now key value ttl c room = record c {
    store =
        insert key (record { expires_at = now + ttl_or_default ttl c.default_ttl; value = value })
          room;
  }

  pub set_lem :
      (now : ℕ) (key : String) (value : V) (ttl : Option ℕ) (c : TtlCache V)
      → 0 < c.max_entries
      → (room : Dict (Slot V)) × (set now key value ttl c
          ≡ some (with_slot now key value ttl c room))
        × (length room < c.max_entries)
        × Evicts c.store room
  unfolding set
  set_lem now key value ttl c p =
      let (room, ran, fits, ev) = evict_if_full_total now c.max_entries c.store p in
      (room, rw (ran, set), fits, ev)

  abbrev pub answer : ℕ → Option (Slot V) → Option V
  answer later none = none
  answer later (some slot) = if ltb later slot.expires_at then some slot.value else none

  pub get-answer :
      (later : ℕ) (k : String) (c : TtlCache V)
      → (get later k c).1 ≡ answer later (lookup k c.store)
  unfolding get
  get-answer later k c = ground arith

  read_self :
      (now : ℕ) (key : String) (value : V) (ttl : Option ℕ) (c : TtlCache V) (later : ℕ)
      (room : Dict (Slot V))
      → (get later key (with_slot now key value ttl c room)).1
        ≡ (if ltb later (now + ttl_or_default ttl c.default_ttl) then some value else none)
  read_self now key value ttl c later room = simp (get-answer, lookup-insert, eq_refl)

  read_other :
      (now : ℕ) (key : String) (value : V) (ttl : Option ℕ) (c : TtlCache V) (later : ℕ)
      (k : String) (room : Dict (Slot V))
      → Evicts c.store room
      → k ≢ key
      → ((get later k (with_slot now key value ttl c room)).1 ≡ (get later k c).1)
        ⊎ ((get later k (with_slot now key value ttl c room)).1 ≡ none)
  read_other now key value ttl c later k room ev ne =
      let differ : str_eq key k ≡ false = ground (arith, eq_iff key k) in
      let kept_lookup : lookup k (with_slot now key value ttl c room).store ≡ lookup k room =
        simp (lookup-insert, differ) in
      elim (Option-cases (lookup k room)) [
        | inl gone ↦ inr (rw (get-answer, kept_lookup, gone))
        | inr there ↦ inl (simp (get-answer, kept_lookup, there.1, ev.kept k there.0 there.1))
      ]

  -- `set` succeeds and stays within the capacity. Afterwards `get` of the key returns the value
  -- exactly until its time to live has passed; and `get` of any other key returns what it did
  -- before, or nothing where the entry was evicted.
  pub get-set :
      (now later : ℕ) (key k : String) (value : V) (ttl : Option ℕ) (c : TtlCache V)
      → 0 < c.max_entries
      → k ≢ key
      → (c' : TtlCache V) × (set now key value ttl c ≡ some c')
        × (length c'.store ≤ c.max_entries)
        × ((get later key c').1
            ≡ (if ltb later (now + ttl_or_default ttl c.default_ttl) then some value else none))
        × (((get later k c').1 ≡ (get later k c).1) ⊎ ((get later k c').1 ≡ none))
  get-set now later key k value ttl c p ne =
      let (room, ran, fits, ev) = set_lem now key value ttl c p in
      let slot : Slot V = record {
        expires_at = now + ttl_or_default ttl c.default_ttl;
        value = value;
      } in
      (
        with_slot now key value ttl c room,
        ran,
        omega (arith, length-insert key slot room),
        read_self now key value ttl c later room,
        read_other now key value ttl c later k room ev ne,
      )

pub data Op {ℓ} (V : Type ℓ) : Type ℓ where
  get_op : ℕ → String → Op V
  set_op : ℕ → String → V → Option ℕ → Op V
  clear_op : Op V

module _ {ℓ} {V : Type ℓ} where
  unfoldable pub apply : Op V → TtlCache V → Option (TtlCache V)
  unfolding get clear
  apply (get_op now key) c = some (get now key c).0
  apply (set_op now key value ttl) c = set now key value ttl c
  apply clear_op c = some (clear c)

  -- The operations in their order; `none` where one raises.
  unfoldable pub run_ops : List (Op V) → TtlCache V → Option (TtlCache V)
  run_ops [] c = some c
  run_ops (op ∷ ops) c = elim (apply op c) [ none ↦ none | some c' ↦ run_ops ops c' ]

  -- The reads since the last `clear`, on top of those already counted.
  abbrev pub reads : ℕ → List (Op V) → ℕ
  reads n [] = n
  reads n (get_op now key ∷ ops) = reads (n + 1) ops
  reads n (set_op now key value ttl ∷ ops) = reads n ops
  reads n (clear_op ∷ ops) = reads 0 ops

  abbrev next_reads : ℕ → Op V → ℕ
  next_reads n (get_op now key) = n + 1
  next_reads n (set_op now key value ttl) = n
  next_reads n clear_op = 0

  reads-next :
      (n : ℕ) (op : Op V) (ops : List (Op V)) → reads n (op ∷ ops) ≡ reads (next_reads n op) ops
  reads-next n (get_op now key) ops = refl
  reads-next n (set_op now key value ttl) ops = refl
  reads-next n clear_op ops = refl

  record Good (entries n : ℕ) (c : TtlCache V) : Type ℓ where
    capacity : c.max_entries ≡ entries
    fits : length c.store ≤ entries
    counted : c.hits + c.misses ≡ n

  get-Good :
      (entries n now : ℕ) (key : String) (c : TtlCache V)
      → Good entries n c
      → Good entries (n + 1) (get now key c).0
  unfolding get
  get-Good entries n now key c g = ground (arith, length-erase key c.store)

  apply-Good :
      (entries n : ℕ) (op : Op V) (c : TtlCache V)
      → 0 < entries
      → Good entries n c
      → (c' : TtlCache V) × (apply op c ≡ some c') × Good entries (next_reads n op) c'
  unfolding apply
  apply-Good entries n (get_op now key) c p g =
      ((get now key c).0, refl, get-Good entries n now key c g)
  apply-Good entries n (set_op now key value ttl) c p g =
      let (room, ran, fits, ev) = set_lem now key value ttl c (omega (arith, g.capacity)) in
      let slot : Slot V = record {
        expires_at = now + ttl_or_default ttl c.default_ttl;
        value = value;
      } in
      (
        with_slot now key value ttl c room,
        ran,
        record {
          capacity = g.capacity;
          fits = omega (arith, length-insert key slot room, g.capacity);
          counted = g.counted;
        },
      )
  apply-Good entries n clear_op c p g =
      (clear c, refl, record { capacity = g.capacity; fits = omega arith; counted = omega arith })

  run_ops-step :
      (op : Op V) (ops : List (Op V)) (c c' : TtlCache V)
      → apply op c ≡ some c'
      → run_ops (op ∷ ops) c ≡ run_ops ops c'
  unfolding run_ops
  run_ops-step op ops c c' h = rw (h, run_ops)

  run_ops-Good :
      (entries n : ℕ) (ops : List (Op V)) (c : TtlCache V)
      → 0 < entries
      → Good entries n c
      → (c' : TtlCache V) × (run_ops ops c ≡ some c') × Good entries (reads n ops) c'
  unfolding run_ops
  run_ops-Good entries n [] c p g = (c, refl, g)
  run_ops-Good entries n (op ∷ ops) c p g =
      let (c', ran, g') = apply-Good entries n op c p g in
      let (c'', rest, g'') = run_ops-Good entries (next_reads n op) ops c' p g' in
      (c'', run_ops-step op ops c c' ran ∙ rest, rw reads-next g'')

  -- From a new cache with a capacity of at least one, no sequence of operations raises; the cache
  -- never holds more than its capacity; and hits and misses add up to the reads since the last
  -- `clear`.
  pub run_ops_bounded :
      (ttl entries : ℕ) (ops : List (Op V))
      → 0 < entries
      → (c : TtlCache V) × (run_ops ops (new ttl entries) ≡ some c)
        × (length c.store ≤ entries)
        × (c.hits + c.misses ≡ reads 0 ops)
  unfolding new
  run_ops_bounded ttl entries ops p =
      let (c, ran, g) =
        run_ops-Good entries 0 ops (new ttl entries) p
          (record { capacity = refl; fits = omega arith; counted = omega arith }) in
      (c, ran, g.fits, g.counted)
