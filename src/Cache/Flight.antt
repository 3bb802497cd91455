-- ===== src/Cache/Flight.antt =====
-- `get_or_set` of tripmate/cache/ttl_cache.py as tasks that share one key, the lock and the table
-- of futures in flight, with `clear` between them. A step is a part of the code between two awaits, or
-- a cancellation that arrives at one.
pub mod Wedge
use multi_ai_agent.Common.{
  ℕ, Bool, true, false, Option, none, some, arith, ◌≡◌, refl, ◌==◌, if◌then◌else◌, ◌⊎◌, inl, inr,
  Bool-cases,
}

-- Where a task stands. A future is named by the task that made it.
pub data Pc : Type 0 where
  idle : Pc
  -- In `self.get`, before its lock.
  looking : Pc
  -- Before the lock under which `_inflight` is read.
  claiming : Pc
  -- In `return await future`, which stands under that lock.
  waiting : ℕ → Pc
  -- Running `coro_func`.
  leading : Pc
  -- Its result is a value: in `self.set`, before the lock.
  storing : Pc
  -- In `finally`, before the lock.
  cleaning : Pc
  done : Pc

-- `lock` is the task that holds the lock across an await; `resolved` are the futures that have a
-- result, an exception or a cancellation. `cancelled` and `cleared` are no state of the source: they
-- record which tasks were cancelled, and that `clear` was called.
pub record Flight : Type 0 where
  pub pc : ℕ → Pc
  pub lock : Option ℕ
  pub inflight : Option ℕ
  pub resolved : ℕ → Bool
  pub cached : Bool
  pub cancelled : ℕ → Bool
  pub cleared : Bool

abbrev pub update {ℓ} : {A : Type ℓ} → (ℕ → A) → ℕ → A → ℕ → A
update f t a u = if u == t then a else f u

unfoldable pub start : Flight
start = record {
  pc = λ t. idle;
  lock = none;
  inflight = none;
  resolved = λ t. false;
  cached = false;
  cancelled = λ t. false;
  cleared = false;
}

abbrev pub at : Flight → ℕ → Pc → Flight
at s t p = record s { pc = update s.pc t p }

abbrev pub ended_at : Flight → ℕ → Pc → Flight
ended_at s t p = record s { pc = update s.pc t p; cancelled = update s.cancelled t true }

-- `clear` for the key: its entry and its future go.
abbrev pub drop_flights : Flight → Flight
drop_flights s = record s { inflight = none; cached = false; cleared = true }

pub data Step : Flight → Flight → Type 0 where
  begin : (s : Flight) (t : ℕ) → s.pc t ≡ idle → Step s (at s t looking)
  hit :
      (s : Flight) (t : ℕ)
      → s.pc t ≡ looking
      → s.lock ≡ none
      → s.cached ≡ true
      → Step s (at s t done)
  miss :
      (s : Flight) (t : ℕ)
      → s.pc t ≡ looking
      → s.lock ≡ none
      → s.cached ≡ false
      → Step s (at s t claiming)
  follow :
      (s : Flight) (t l : ℕ)
      → s.pc t ≡ claiming
      → s.lock ≡ none
      → s.inflight ≡ some l
      → Step s (record s { pc = update s.pc t (waiting l); lock = some t })
  lead :
      (s : Flight) (t : ℕ)
      → s.pc t ≡ claiming
      → s.lock ≡ none
      → s.inflight ≡ none
      → Step s (record s { pc = update s.pc t leading; inflight = some t })
  got_value : (s : Flight) (t : ℕ) → s.pc t ≡ leading → Step s (at s t storing)
  -- `None`, or an exception: the future is resolved at once.
  got_nothing :
      (s : Flight) (t : ℕ)
      → s.pc t ≡ leading
      → Step s (record s { pc = update s.pc t cleaning; resolved = update s.resolved t true })
  -- A cancellation passes `except Exception` by and leaves the future as it is.
  cancel : (s : Flight) (t : ℕ) → s.pc t ≡ leading → Step s (ended_at s t cleaning)
  cancel_store : (s : Flight) (t : ℕ) → s.pc t ≡ storing → Step s (ended_at s t cleaning)
  -- In the `finally`, before its lock: the key stays in `_inflight`.
  cancel_clean : (s : Flight) (t : ℕ) → s.pc t ≡ cleaning → Step s (ended_at s t done)
  cancel_idle : (s : Flight) (t : ℕ) → s.pc t ≡ idle → Step s (ended_at s t done)
  cancel_look : (s : Flight) (t : ℕ) → s.pc t ≡ looking → Step s (ended_at s t done)
  cancel_claim : (s : Flight) (t : ℕ) → s.pc t ≡ claiming → Step s (ended_at s t done)
  -- The future that a task awaits is cancelled with it, and the lock is given back.
  cancel_wait :
      (s : Flight) (t l : ℕ)
      → s.pc t ≡ waiting l
      → Step s (record s {
        pc = update s.pc t done;
        lock = none;
        resolved = update s.resolved l true;
        cancelled = update s.cancelled t true;
      })
  store :
      (s : Flight) (t : ℕ)
      → s.pc t ≡ storing
      → s.lock ≡ none
      → Step s (record s {
        pc = update s.pc t cleaning;
        cached = true;
        resolved = update s.resolved t true;
      })
  wake :
      (s : Flight) (t l : ℕ)
      → s.pc t ≡ waiting l
      → s.resolved l ≡ true
      → Step s (record s { pc = update s.pc t done; lock = none })
  clean :
      (s : Flight) (t : ℕ)
      → s.pc t ≡ cleaning
      → s.lock ≡ none
      → Step s (record s { pc = update s.pc t done; inflight = none })
  expire : (s : Flight) → Step s (record s { cached = false })
  -- `clear`, under the lock.
  clears : (s : Flight) → s.lock ≡ none → Step s (drop_flights s)

pub data Steps : Flight → Flight → Type 0 where
  halt : {s : Flight} → Steps s s
  then_ : {s t u : Flight} → Step s t → Steps t u → Steps s u

abbrev pub in_charge : Pc → Bool
in_charge leading = true
in_charge storing = true
in_charge cleaning = true
in_charge _ = false

-- Until `clear` is called, the task that runs the function, or has yet to clean up after it, is the
-- one in `_inflight`; a task that waits for a future holds the lock.
record Inv (s : Flight) : Type 0 where
  registered : s.cleared ≡ false → (t : ℕ) → in_charge (s.pc t) ≡ true → s.inflight ≡ some t
  held : (t l : ℕ) → s.pc t ≡ waiting l → s.lock ≡ some t

Step-Inv : {s t : Flight} → Step s t → Inv s → Inv t
Step-Inv (begin s t e) h = record {
  registered = λ c0 u p. ground (arith, h.registered c0 u, h.registered c0 t);
  held = λ u m p. ground (arith, h.held u m);
}
Step-Inv (hit s t e l c) h = record {
  registered = λ c0 u p. ground (arith, h.registered c0 u, h.registered c0 t);
  held = λ u m p. ground (arith, h.held u m);
}
Step-Inv (miss s t e l c) h = record {
  registered = λ c0 u p. ground (arith, h.registered c0 u, h.registered c0 t);
  held = λ u m p. ground (arith, h.held u m);
}
Step-Inv (follow s t f e l c) h = record {
  registered = λ c0 u p. ground (arith, h.registered c0 u, h.registered c0 t);
  held = λ u m p. ground (arith, h.held u m);
}
Step-Inv (lead s t e l c) h = record {
  registered = λ c0 u p. ground (arith, h.registered c0 u, h.registered c0 t);
  held = λ u m p. ground (arith, h.held u m);
}
Step-Inv (got_value s t e) h = record {
  registered = λ c0 u p. ground (arith, h.registered c0 u, h.registered c0 t);
  held = λ u m p. ground (arith, h.held u m);
}
Step-Inv (got_nothing s t e) h = record {
  registered = λ c0 u p. ground (arith, h.registered c0 u, h.registered c0 t);
  held = λ u m p. ground (arith, h.held u m);
}
Step-Inv (cancel s t e) h = record {
  registered = λ c0 u p. ground (arith, h.registered c0 u, h.registered c0 t);
  held = λ u m p. ground (arith, h.held u m);
}
Step-Inv (cancel_store s t e) h = record {
  registered = λ c0 u p. ground (arith, h.registered c0 u, h.registered c0 t);
  held = λ u m p. ground (arith, h.held u m);
}
Step-Inv (cancel_clean s t e) h = record {
  registered = λ c0 u p. ground (arith, h.registered c0 u, h.registered c0 t);
  held = λ u m p. ground (arith, h.held u m);
}
Step-Inv (cancel_idle s t e) h = record {
  registered = λ c0 u p. ground (arith, h.registered c0 u, h.registered c0 t);
  held = λ u m p. ground (arith, h.held u m);
}
Step-Inv (cancel_look s t e) h = record {
  registered = λ c0 u p. ground (arith, h.registered c0 u, h.registered c0 t);
  held = λ u m p. ground (arith, h.held u m);
}
Step-Inv (cancel_claim s t e) h = record {
  registered = λ c0 u p. ground (arith, h.registered c0 u, h.registered c0 t);
  held = λ u m p. ground (arith, h.held u m);
}
Step-Inv (cancel_wait s t f e) h = record {
  registered = λ c0 u p. ground (arith, h.registered c0 u, h.registered c0 t);
  held = λ u m p. ground (arith, h.held u m, h.held t f);
}
Step-Inv (store s t e l) h = record {
  registered = λ c0 u p. ground (arith, h.registered c0 u, h.registered c0 t);
  held = λ u m p. ground (arith, h.held u m);
}
Step-Inv (wake s t f e l) h = record {
  registered = λ c0 u p. ground (arith, h.registered c0 u, h.registered c0 t);
  held = λ u m p. ground (arith, h.held u m, h.held t f);
}
Step-Inv (clean s t e l) h = record {
  registered = λ c0 u p. ground (arith, h.registered c0 u, h.registered c0 t);
  held = λ u m p. ground (arith, h.held u m);
}
Step-Inv (expire s) h = record {
  registered = λ c0 u p. ground (arith, h.registered c0 u);
  held = λ u m p. ground (arith, h.held u m);
}
Step-Inv (clears s l) h = record {
  registered = λ c0 u p. absurd (ground (arith, c0));
  held = λ u m p. ground (arith, h.held u m);
}

start-Inv : Inv start
unfolding start
start-Inv = record { registered = λ c t p. cc; held = λ t l p. cc }

Steps-Inv : {s t : Flight} → Steps s t → Inv s → Inv t
Steps-Inv halt h = h
Steps-Inv (then_ x r) h = Steps-Inv r (Step-Inv x h)

-- Single flight: however the tasks interleave and whichever are cancelled, as long as `clear` has not
-- been called, two tasks that run the function for the key, or have yet to clean up after it, are one.
pub single_flight :
    (s : Flight) (t u : ℕ)
    → Steps start s
    → s.cleared ≡ false
    → in_charge (s.pc t) ≡ true
    → in_charge (s.pc u) ≡ true
    → t ≡ u
single_flight s t u r c p q =
    let h = Steps-Inv r start-Inv in ground (arith, h.registered c t p, h.registered c u q)
