-- ===== src/Tests/Caches.antt =====
-- Runs of tripmate/cache/ttl_cache.py.
use multi_ai_agent.Common.{
  ◌<◌, true, ℕ, ◌+◌, ◌≤◌, ◌≡◌, ◌≢◌, ◌⊎◌, refl, String, min_by, false, none, some, List, [], ◌∷◌,
  arith, length, eq_iff,
}
use multi_ai_agent.Common.Dict.{lookup, erase, insert, keys}
use multi_ai_agent.Cache.{
  TtlCache, new, evict_if_full, evict_oldest, expired_keys, erase_all, expiry, get, set,
}
use multi_ai_agent.Cache.Reads.{Op, get_op, set_op, run_ops, apply, answer, reads, run_ops_bounded}
use multi_ai_agent.Cache.History.{history}
use multi_ai_agent.Cache.History.Recall.{writes, get-history}
use multi_ai_agent.Cache.Flight.{
  looking, claiming, waiting, leading, storing, Flight, update, start, begin, miss, lead, follow,
  expire, got_value, Steps, halt, then_, single_flight,
}
use multi_ai_agent.Cache.Flight.Wedge.{IsWedged, IsWedged-forever, second_caller_wedges}

abbrev one_slot : TtlCache ℕ
one_slot = new 60 1

abbrev full : TtlCache ℕ
full = record one_slot { store = ("b", record { expires_at = 70; value = 7 }) ∷ [] }

keys_differ : ◌≢◌ {A = String} "b" "a"
keys_differ e = absurd (ground (arith, (eq_iff "b" "a").1 e))

abbrev four_ops : List (Op ℕ)
four_ops = set_op 1 "a" 5 none ∷ set_op 2 "b" 6 none ∷ get_op 3 "a" ∷ get_op 4 "b" ∷ []

run_ops_bounded_example :
    (c : TtlCache ℕ) × (run_ops four_ops (new 60 1) ≡ some c)
    × (length c.store ≤ 1)
    × (c.hits + c.misses ≡ reads 0 four_ops)
run_ops_bounded_example = run_ops_bounded 60 1 four_ops (omega arith)

-- What is left of the four operations in a cache of one entry.
abbrev last_write : TtlCache ℕ
last_write = record {
  default_ttl = 60;
  max_entries = 1;
  store = ("b", record { expires_at = 62; value = 6 }) ∷ [];
  hits = 1;
  misses = 1;
}

get-history_example :
    ((get 30 "b" last_write).1 ≡ answer 30 (history 60 four_ops (λ j. none) "b"))
    ⊎ (((get 30 "b" last_write).1 ≡ none) × (1 < writes 0 four_ops))
unfolding run_ops apply new set get evict_if_full evict_oldest expired_keys erase_all expiry lookup
    insert erase keys min_by
get-history_example =
    get-history 60 1 30 "b" four_ops last_write (omega arith)
      (omega arith, (omega arith, (omega arith, (omega arith, omega arith)))) refl

-- Task 0 runs the function and task 1 is about to look for one in flight.
abbrev met : Flight
met = record {
  pc =
      update (update (update (update (update start.pc 0 looking) 1 looking) 0 claiming) 1 claiming)
        0 leading;
  lock = none;
  inflight = some 0;
  resolved = λ t. false;
  cached = false;
  cancelled = λ t. false;
  cleared = false;
}

reaches_met : Steps start met
unfolding start
reaches_met = then_ (begin start 0 refl) (
    then_ (begin _ 1 refl) (
      then_ (miss _ 0 refl refl refl)
        (then_ (miss _ 1 refl refl refl) (then_ (lead _ 0 refl refl refl) halt))))

abbrev jammed : Flight
jammed = record met { pc = update (update met.pc 1 (waiting 0)) 0 storing; lock = some 1 }

second_caller_wedges_example : (t : Flight) × Steps met t × IsWedged t 0 1
second_caller_wedges_example = second_caller_wedges met 0 1 reaches_met refl refl refl refl refl

abbrev zeroth : ℕ
zeroth = 0

single_flight_example : zeroth ≡ zeroth
single_flight_example = single_flight met 0 0 reaches_met refl refl refl

append-Steps : {s t u : Flight} → Steps s t → Steps t u → Steps s u
append-Steps halt r = r
append-Steps (then_ p q) r = then_ p (append-Steps q r)

IsWedged-forever_example :
    IsWedged (record jammed { cached = false }) 0 1
    ⊎ ((jammed.cancelled 0 ≡ true) ⊎ (jammed.cancelled 1 ≡ true))
IsWedged-forever_example =
    IsWedged-forever jammed (record jammed { cached = false }) 0 1
      (append-Steps reaches_met
        (then_ (follow met 1 0 refl refl refl) (then_ (got_value _ 0 refl) halt)))
      (then_ (expire jammed) halt)
      (record { storing = refl; waiting = refl; locked = refl; unresolved = refl })
