-- ===== src/Cache/History.antt =====
-- The cache against a map without bounds: its entries are those that were last written.
pub mod Recall
use multi_ai_agent.Common.{
  ℕ, ◌+◌, ◌<◌, ◌≤◌, length, sym, eq_iff, ◌∙◌, leb, Bool-cases, String, Option, none, some, List, [],
  ◌∷◌, ◌≡◌, refl, ◌⊎◌, inl, inr, arith, str_eq, if◌then◌else◌, Option-cases,
}
use mathlib.Core.Option.{some-injective}
use native.Mathlib.Nat.{le_refl}
use multi_ai_agent.Common.Dict.{
  Dict, lookup, lookup-insert, lookup-erase, length-insert, length-erase,
}
use multi_ai_agent.Cache.{Slot, TtlCache, get, set, evict_if_full, clear, new, ttl_or_default}
use multi_ai_agent.Cache.Bounds.{Evicts}
use multi_ai_agent.Cache.Reads.{
  Op, get_op, set_op, clear_op, apply, run_ops, answer, get-answer, set_lem, with_slot,
}

-- What was last written for each key since the last `clear`.
abbrev pub History {ℓ} : Type ℓ → Type ℓ
History V = String → Option (Slot V)

module _ {ℓ} {V : Type ℓ} where
  abbrev pub record_op : ℕ → Op V → History V → History V
  record_op default (get_op now key) f = f
  record_op default (set_op now key value ttl) f = λ k.
      if str_eq key k
      then some (record { expires_at = now + ttl_or_default ttl default; value = value })
      else f k
  record_op default clear_op f = λ k. none

  abbrev pub history : ℕ → List (Op V) → History V → History V
  history default [] f = f
  history default (op ∷ ops) f = history default ops (record_op default op f)

  -- Every entry is the one that was last written.
  record Simulates (default entries : ℕ) (f : History V) (c : TtlCache V) : Type ℓ where
    ttl : c.default_ttl ≡ default
    capacity : c.max_entries ≡ entries
    recent : (k : String) (s : Slot V) → lookup k c.store ≡ some s → f k ≡ some s

  get-Simulates :
      (default entries : ℕ) (f : History V) (now : ℕ) (key : String) (c : TtlCache V)
      → Simulates default entries f c
      → Simulates default entries f (get now key c).0
  unfolding get
  get-Simulates default entries f now key c h = record {
    ttl = ground arith;
    capacity = ground arith;
    recent = λ k s q. h.recent k s (ground (arith, q, lookup-erase key k c.store));
  }

  set-Simulates :
      (default entries : ℕ) (f : History V) (now : ℕ) (key : String) (value : V) (ttl : Option ℕ)
      (c : TtlCache V) (room : Dict (Slot V))
      → Evicts c.store room
      → Simulates default entries f c
      → Simulates default entries
          (record_op default (set_op now key value ttl) f)
          (with_slot now key value ttl c room)
  set-Simulates default entries f now key value ttl c room ev h = record {
    ttl = h.ttl;
    capacity = h.capacity;
    recent = λ k s q.
        let slot : Slot V = record {
          expires_at = now + ttl_or_default ttl c.default_ttl;
          value = value;
        } in
        ground (arith, lookup-insert key k slot room, ev.kept k s, h.recent k s, h.ttl, q);
  }

  clear-Simulates :
      (default entries : ℕ) (f : History V) (c : TtlCache V)
      → Simulates default entries f c
      → Simulates default entries (λ k. none) (clear c)
  unfolding clear lookup
  clear-Simulates default entries f c h = record {
    ttl = h.ttl;
    capacity = h.capacity;
    recent = λ k s q. cc;
  }

  apply-Simulates :
      (default entries : ℕ) (f : History V) (op : Op V) (c c' : TtlCache V)
      → 0 < entries
      → apply op c ≡ some c'
      → Simulates default entries f c
      → Simulates default entries (record_op default op f) c'
  unfolding apply
  apply-Simulates default entries f (get_op now key) c c' p ran h =
      let e : (get now key c).0 ≡ c' = cc in rw (← e) (get-Simulates default entries f now key c h)
  apply-Simulates default entries f (set_op now key value ttl) c c' p ran h =
      let (room, ran', fits, ev) = set_lem now key value ttl c (omega (arith, h.capacity)) in
      let e : with_slot now key value ttl c room ≡ c' = cc in
      rw (← e) (set-Simulates default entries f now key value ttl c room ev h)
  apply-Simulates default entries f clear_op c c' p ran h =
      let e : clear c ≡ c' = cc in rw (← e) (clear-Simulates default entries f c h)

  run_ops-Simulates :
      (default entries : ℕ) (f : History V) (ops : List (Op V)) (c c' : TtlCache V)
      → 0 < entries
      → run_ops ops c ≡ some c'
      → Simulates default entries f c
      → Simulates default entries (history default ops f) c'
  unfolding run_ops
  run_ops-Simulates default entries f [] c c' p ran h = let e : c ≡ c' = cc in rw (← e) h
  run_ops-Simulates default entries f (op ∷ ops) c c' p ran h = elim (Option-cases (apply op c)) [
    | inl raised ↦ absurd (ground (arith, raised, ran))
    | inr (d, step) ↦
        run_ops-Simulates default entries (record_op default op f) ops d c' p
          (ground (arith, step, ran)) (apply-Simulates default entries f op c d p step h)
  ]

  new-Simulates :
      (default entries : ℕ) → Simulates default entries (λ j. none) (new default entries)
  unfolding new lookup
  new-Simulates default entries = record { ttl = refl; capacity = refl; recent = λ k s q. cc }
