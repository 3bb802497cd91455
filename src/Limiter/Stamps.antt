-- ===== src/Limiter/Stamps.antt =====
-- One check of the in-memory limiter, and what it keeps of the timestamps of one identifier.
use mathlib.Core.Path.{subst}
use native.Mathlib.Nat.{le_trans, le_refl}
use multi_ai_agent.Common.{
  ℕ, ◌+◌, ◌≤◌, ◌<◌, String, true, false, Option, some, List, [], ◌∷◌, ◌++◌, ltb, length, arith, ◌≡◌,
  ◌≢◌, ◌∙◌, sym, ap, refl, ◌⊎◌, inl, inr, Bool-cases, Option-cases, All, count-append, All-keep,
  All-imp,
}
use multi_ai_agent.Common.Dict.{Dict, lookup, insert, lookup-drop_where, length-drop_where}
use multi_ai_agent.Limiter.{
  Limiter, ms, last, last_or_zero, is_stale, stale_last, drop_stale, evict_over_capacity,
  cleanup_stale_records, by_ip, or_none, Verdict, passed, in_window, verdict_for, record_request,
  is_rate_limited_in_memory,
}
use multi_ai_agent.Limiter.Window.{recent, Spaced}

recent_old : (w x : ℕ) (ts : List ℕ) → All (λ t. t + w ≤ x) ts → recent w x ts ≡ 0
recent_old w x [] h = refl
recent_old w x (t ∷ ts) h = ground (arith, recent_old w x ts h.1, h.0)

recent-in_window :
    (w now x : ℕ) (ts : List ℕ) → now ≤ x → recent w x (in_window now w ts) ≡ recent w x ts
unfolding in_window
recent-in_window w now x [] h = refl
recent-in_window w now x (t ∷ ts) h = ground (arith, recent-in_window w now x ts h)

length-in_window : (w now : ℕ) (ts : List ℕ) → length (in_window now w ts) ≡ recent w now ts
unfolding in_window
length-in_window w now [] = refl
length-in_window w now (t ∷ ts) = ground (arith, length-in_window w now ts)

last-append : (ts : List ℕ) (t : ℕ) → last (ts ++ t ∷ []) ≡ some t
last-append [] t = refl
last-append (a ∷ []) t = refl
last-append (a ∷ b ∷ ts) t = last-append (b ∷ ts) t

All-append_one : (P : ℕ → Type 0) (ts : List ℕ) (t : ℕ) → All P ts → P t → All P (ts ++ t ∷ [])
All-append_one P [] t h p = (p, tt)
All-append_one P (a ∷ ts) t h p = (h.0, All-append_one P ts t h.1 p)

-- No timestamp comes after the last one, nor after the given time.
pub record IsPast (now : ℕ) (ts : List ℕ) : Type 0 where
  pub past : All (λ t. t ≤ now) ts
  pub peak : All (λ t. t ≤ last_or_zero (last ts)) ts

IsPast-later : (a b : ℕ) (ts : List ℕ) → a ≤ b → IsPast a ts → IsPast b ts
IsPast-later a b ts h p = record { past = All-imp ts (λ t q. le_trans q h) p.past; peak = p.peak }

IsPast-append :
    (now w : ℕ) (ts : List ℕ) → IsPast now ts → IsPast now (in_window now w ts ++ now ∷ [])
unfolding in_window
IsPast-append now w ts p =
    let kept = All-keep (λ t. t ≤ now) (λ t. ltb now (t + w)) ts p.past in
    let all = All-append_one (λ t. t ≤ now) (in_window now w ts) now kept (omega arith) in
    record { past = all; peak = rw last-append all }

last-some : (t : ℕ) (ts : List ℕ) → (m : ℕ) × (last (t ∷ ts) ≡ some m)
last-some t [] = (t, refl)
last-some t (u ∷ ts) = last-some u ts

stale_item :
    (now w u x m : ℕ) (o : Option ℕ)
    → o ≡ some m
    → stale_last now w o ≡ true
    → u ≤ last_or_zero o
    → now ≤ x
    → u + w ≤ x
unfolding stale_last
stale_item now w u x m o e s le h = ground arith

stale_recent :
    (now w x : ℕ) (ts : List ℕ)
    → now ≤ x
    → IsPast now ts
    → is_stale now w ts ≡ true
    → recent w x ts ≡ 0
unfolding is_stale
stale_recent now w x [] h p s = refl
stale_recent now w x (t ∷ ts) h p s =
    let (m, e) = last-some t ts in
    recent_old w x (t ∷ ts)
      (All-imp (t ∷ ts) (λ u q. stale_item now w u x m (last (t ∷ ts)) e s q h) p.peak)

abbrev pub stamps : String → Limiter → List ℕ
stamps k l = or_none (lookup k l.requests)

-- The times at which requests of one identifier were let through, newest first, against the
-- timestamps that the limiter holds for it.
pub record Inv (k : String) (window limit now : ℕ) (h : List ℕ) (l : Limiter) : Type 0 where
  pub window_kept : l.window_seconds ≡ window
  pub covers : (x : ℕ) → now ≤ x → recent (ms window) x h ≤ recent (ms window) x (stamps k l)
  pub is_past : IsPast now (stamps k l)
  pub spaced : Spaced limit (ms window) h

evict_below :
    (capacity : ℕ) (d : Dict (List ℕ)) → length d < capacity → evict_over_capacity capacity d ≡ d
unfolding evict_over_capacity
evict_below capacity d h = ground arith

pub length-drop_stale : (now w : ℕ) (d : Dict (List ℕ)) → length (drop_stale now w d) ≤ length d
unfolding drop_stale
length-drop_stale now w d = length-drop_where (is_stale now w) d

-- What the clean-up leaves of the table, below the capacity.
pub cleanup_requests :
    (now : ℕ) (l : Limiter)
    → length l.requests < l.max_tracked_ips
    → let c = cleanup_stale_records now false l in
      (c.window_seconds ≡ l.window_seconds)
      × (c.max_tracked_ips ≡ l.max_tracked_ips)
      × ((c.requests ≡ l.requests) ⊎ (c.requests ≡ drop_stale now (ms l.window_seconds) l.requests))
unfolding cleanup_stale_records
cleanup_requests now l h =
    let d = drop_stale now (ms l.window_seconds) l.requests in
    let shorter = length-drop_stale now (ms l.window_seconds) l.requests in
    ground (arith, evict_below l.max_tracked_ips d (omega arith))

stamps_dropped :
    (k : String) (now w : ℕ) (d : Dict (List ℕ))
    → (or_none (lookup k (drop_stale now w d)) ≡ or_none (lookup k d))
      ⊎ ((or_none (lookup k (drop_stale now w d)) ≡ [])
          × (is_stale now w (or_none (lookup k d)) ≡ true))
unfolding drop_stale
stamps_dropped k now w d = elim (Option-cases (lookup k d)) [
  | inl gone ↦ inl (rw lookup-drop_where (rw gone))
  | inr there ↦ elim (Bool-cases (is_stale now w there.0)) [
    | inl s ↦ inr (rw lookup-drop_where (rw there.1 (rw s)), rw there.1 s)
    | inr f ↦ inl (rw lookup-drop_where (rw there.1 (rw f)))
  ]
]

pub Inv-same :
    (k : String) (window limit before now : ℕ) (h : List ℕ) (l c : Limiter)
    → c.window_seconds ≡ l.window_seconds
    → stamps k c ≡ stamps k l
    → before ≤ now
    → Inv k window limit before h l
    → Inv k window limit now h c
Inv-same k window limit before now h l c w e le v = record {
  window_kept = w ∙ v.window_kept;
  covers = λ x q.
      subst (λ s. recent (ms window) x h ≤ recent (ms window) x s) (sym e)
        (v.covers x (le_trans le q));
  is_past = subst (IsPast now) (sym e) (IsPast-later before now (stamps k l) le v.is_past);
  spaced = v.spaced;
}

Inv-gone :
    (k : String) (window limit before now : ℕ) (h : List ℕ) (l c : Limiter)
    → c.window_seconds ≡ l.window_seconds
    → stamps k c ≡ []
    → is_stale now (ms window) (stamps k l) ≡ true
    → before ≤ now
    → Inv k window limit before h l
    → Inv k window limit now h c
Inv-gone k window limit before now h l c w e s le v = record {
  window_kept = w ∙ v.window_kept;
  covers = λ x q. omega (
    arith,
    v.covers x (le_trans le q),
    stale_recent now (ms window) x (stamps k l) q
        (IsPast-later before now (stamps k l) le v.is_past) s,
  );
  is_past = subst (IsPast now) (sym e) (record { past = tt; peak = tt });
  spaced = v.spaced;
}

pub cleanup-Inv :
    (k : String) (window limit before now : ℕ) (h : List ℕ) (l : Limiter)
    → length l.requests < l.max_tracked_ips
    → before ≤ now
    → Inv k window limit before h l
    → Inv k window limit now h (cleanup_stale_records now false l)
cleanup-Inv k window limit before now h l small le v =
    let (same_window, same_cap, which) = cleanup_requests now l small in
    let c = cleanup_stale_records now false l in
    elim which [
      | inl e ↦
          Inv-same k window limit before now h l c same_window (ap (λ d. or_none (lookup k d)) e) le
            v
      | inr e ↦ elim (stamps_dropped k now (ms l.window_seconds) l.requests) [
        | inl kept ↦
            Inv-same k window limit before now h l c same_window
              (ap (λ d. or_none (lookup k d)) e ∙ kept) le v
        | inr gone ↦
            Inv-gone k window limit before now h l c same_window
              (ap (λ d. or_none (lookup k d)) e ∙ gone.0)
              (subst (λ n. is_stale now (ms n) (stamps k l) ≡ true) v.window_kept gone.1) le v
      ]
    ]

-- The two ways in which a check can end without an error.
pub check-cases :
    (now : ℕ) (j : String) (limit : ℕ) (l l' : Limiter) (verdict : Verdict)
    → is_rate_limited_in_memory now j by_ip limit l ≡ some (l', verdict)
    → let c = cleanup_stale_records now false l in
      let ts = in_window now (ms c.window_seconds) (stamps j c) in
      ((verdict ≡ passed)
        × (length ts < limit)
        × (l' ≡ record c { requests = insert j (ts ++ now ∷ []) c.requests }))
      ⊎ ((verdict ≢ passed) × (l' ≡ c))
unfolding is_rate_limited_in_memory
check-cases now j limit l l' verdict e =
    let c = cleanup_stale_records now false l in
    recorded now j limit (in_window now (ms c.window_seconds) (stamps j c)) c l' verdict e
  where
    recorded :
        (now : ℕ) (j : String) (limit : ℕ) (ts : List ℕ) (c l' : Limiter) (verdict : Verdict)
        → record_request now j by_ip ts c (verdict_for now (ms c.window_seconds) limit ts)
          ≡ some (l', verdict)
        → ((verdict ≡ passed)
            × (length ts < limit)
            × (l' ≡ record c { requests = insert j (ts ++ now ∷ []) c.requests }))
          ⊎ ((verdict ≢ passed) × (l' ≡ c))
    recorded now j limit [] c l' verdict e = ground arith
    recorded now j limit (t ∷ ts) c l' verdict e = ground arith

-- A request that is let through under the checked identifier.
pub accept-Inv :
    (k : String) (window limit now : ℕ) (h : List ℕ) (c l' : Limiter)
    → length (in_window now (ms window) (stamps k c)) < limit
    → l'.window_seconds ≡ window
    → stamps k l' ≡ in_window now (ms window) (stamps k c) ++ now ∷ []
    → Inv k window limit now h c
    → Inv k window limit now (now ∷ h) l'
accept-Inv k window limit now h c l' room w e v =
    let fresh = in_window now (ms window) (stamps k c) in
    let full = λ (x : ℕ) (q : now ≤ x). recent-in_window (ms window) now x (stamps k c) q in
    record {
      window_kept = w;
      covers = λ x q.
          subst (λ s. recent (ms window) x (now ∷ h) ≤ recent (ms window) x s) (sym e)
            (ground (
              arith,
              v.covers x q,
              full x q,
              count-append (λ (t : ℕ). ltb x (t + ms window)) fresh (now ∷ []),
            ));
      is_past = subst (IsPast now) (sym e) (IsPast-append now (ms window) (stamps k c) v.is_past);
      spaced = (
        ground (arith, v.covers now (le_refl now), length-in_window (ms window) now (stamps k c)),
        v.spaced,
      );
    }
