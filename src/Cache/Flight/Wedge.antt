-- ===== src/Cache/Flight/Wedge.antt =====
-- Two tasks in `get_or_set` of tripmate/cache/ttl_cache.py that wait for one another.
use multi_ai_agent.Common.{
  ℕ, true, false, none, some, arith, ◌≡◌, refl, ◌==◌, ◌⊎◌, inl, inr, Bool-cases,
}
use multi_ai_agent.Cache.Flight.{
  waiting, leading, storing, claiming, Flight, update, start, at, Step, begin, hit, miss, follow,
  lead, got_value, got_nothing, cancel, cancel_store, cancel_clean, cancel_idle, cancel_look,
  cancel_claim, cancel_wait, store, wake, clean, expire, clears, Steps, halt, then_, Inv, Step-Inv,
  Steps-Inv, start-Inv,
}

-- Task `f` waits, with the lock, for the future of task `l`, which waits for the lock to store the
-- value that it has.
pub record IsWedged (s : Flight) (l f : ℕ) : Type 0 where
  pub storing : s.pc l ≡ storing
  pub waiting : s.pc f ≡ waiting l
  pub locked : s.lock ≡ some f
  pub unresolved : s.resolved l ≡ false

-- The two are wedged, or one of them was cancelled.
abbrev pub Wedged : Flight → ℕ → ℕ → Type 0
Wedged s l f = IsWedged s l f ⊎ ((s.cancelled l ≡ true) ⊎ (s.cancelled f ≡ true))

stays_cancelled : {s t : Flight} (u : ℕ) → Step s t → s.cancelled u ≡ true → t.cancelled u ≡ true
stays_cancelled u (begin s t e) h = ground arith
stays_cancelled u (hit s t e l c) h = ground arith
stays_cancelled u (miss s t e l c) h = ground arith
stays_cancelled u (follow s t f e l c) h = ground arith
stays_cancelled u (lead s t e l c) h = ground arith
stays_cancelled u (got_value s t e) h = ground arith
stays_cancelled u (got_nothing s t e) h = ground arith
stays_cancelled u (cancel s t e) h = ground arith
stays_cancelled u (cancel_store s t e) h = ground arith
stays_cancelled u (cancel_clean s t e) h = ground arith
stays_cancelled u (cancel_idle s t e) h = ground arith
stays_cancelled u (cancel_look s t e) h = ground arith
stays_cancelled u (cancel_claim s t e) h = ground arith
stays_cancelled u (cancel_wait s t f e) h = ground arith
stays_cancelled u (store s t e l) h = ground arith
stays_cancelled u (wake s t f e l) h = ground arith
stays_cancelled u (clean s t e l) h = ground arith
stays_cancelled u (expire s) h = ground arith
stays_cancelled u (clears s l) h = ground arith

Step-IsWedged : {s t : Flight} (l f : ℕ) → Step s t → Inv s → IsWedged s l f → Wedged t l f
Step-IsWedged l f (begin s t e) h w = inl (ground arith)
Step-IsWedged l f (hit s t e k c) h w = inl (ground arith)
Step-IsWedged l f (miss s t e k c) h w = inl (ground arith)
Step-IsWedged l f (follow s t m e k c) h w = inl (ground arith)
Step-IsWedged l f (lead s t e k c) h w = inl (ground arith)
Step-IsWedged l f (got_value s t e) h w = inl (ground arith)
Step-IsWedged l f (got_nothing s t e) h w = inl (ground arith)
Step-IsWedged l f (cancel s t e) h w = elim (Bool-cases (l == t)) [
  | inl mine ↦ inr (inl (ground arith))
  | inr other ↦ inl (ground arith)
]
Step-IsWedged l f (cancel_store s t e) h w = elim (Bool-cases (l == t)) [
  | inl mine ↦ inr (inl (ground arith))
  | inr other ↦ inl (ground arith)
]
Step-IsWedged l f (cancel_clean s t e) h w = elim (Bool-cases (l == t)) [
  | inl mine ↦ inr (inl (ground arith))
  | inr other ↦ inl (ground arith)
]
Step-IsWedged l f (cancel_idle s t e) h w = elim (Bool-cases (l == t)) [
  | inl mine ↦ inr (inl (ground arith))
  | inr other ↦ inl (ground arith)
]
Step-IsWedged l f (cancel_look s t e) h w = elim (Bool-cases (l == t)) [
  | inl mine ↦ inr (inl (ground arith))
  | inr other ↦ inl (ground arith)
]
Step-IsWedged l f (cancel_claim s t e) h w = elim (Bool-cases (l == t)) [
  | inl mine ↦ inr (inl (ground arith))
  | inr other ↦ inl (ground arith)
]
Step-IsWedged l f (cancel_wait s t m e) h w = inr (inr (ground (arith, h.held t m e)))
Step-IsWedged l f (store s t e k) h w = inl (ground arith)
Step-IsWedged l f (wake s t m e k) h w = absurd (ground (arith, h.held t m e))
Step-IsWedged l f (clean s t e k) h w = inl (ground arith)
Step-IsWedged l f (expire s) h w = inl (ground arith)
Step-IsWedged l f (clears s k) h w = inl (ground arith)

Step-Wedged : {s t : Flight} (l f : ℕ) → Step s t → Inv s → Wedged s l f → Wedged t l f
Step-Wedged l f x h (inl w) = Step-IsWedged l f x h w
Step-Wedged l f x h (inr (inl c)) = inr (inl (stays_cancelled l x c))
Step-Wedged l f x h (inr (inr c)) = inr (inr (stays_cancelled f x c))

Steps-Wedged : {s t : Flight} (l f : ℕ) → Steps s t → Inv s → Wedged s l f → Wedged t l f
Steps-Wedged l f halt h w = w
Steps-Wedged l f (then_ x r) h w = Steps-Wedged l f r (Step-Inv x h) (Step-Wedged l f x h w)

-- Two tasks that have come to wait for one another stay so, whatever the other tasks do, until one of
-- the two is cancelled: the future is never resolved and the lock never free.
pub IsWedged-forever :
    (s t : Flight) (l f : ℕ)
    → Steps start s
    → Steps s t
    → IsWedged s l f
    → IsWedged t l f ⊎ ((t.cancelled l ≡ true) ⊎ (t.cancelled f ≡ true))
IsWedged-forever s t l f r q w = Steps-Wedged l f q (Steps-Inv r start-Inv) (inl w)

-- A second caller that comes for the key while the function runs, no `clear` having been called, and
-- so finds it in flight, with a future that is not settled, and a value as the function's result, lead
-- there.
pub second_caller_wedges :
    (s : Flight) (l f : ℕ)
    → Steps start s
    → s.cleared ≡ false
    → s.resolved l ≡ false
    → s.pc l ≡ leading
    → s.pc f ≡ claiming
    → s.lock ≡ none
    → (t : Flight) × Steps s t × IsWedged t l f
second_caller_wedges s l f r c0 unset e c free =
    let h = Steps-Inv r start-Inv in
    let entry : s.inflight ≡ some l = h.registered c0 l (rw e) in
    let u : Flight = record s { pc = update s.pc f (waiting l); lock = some f } in
    let still : u.pc l ≡ leading = ground arith in
    (
      at u l storing,
      then_ (follow s f l c free entry) (then_ (got_value u l still) halt),
      record { storing = ground arith; waiting = ground arith; locked = refl; unresolved = unset },
    )
