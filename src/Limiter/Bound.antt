-- ===== src/Limiter/Bound.antt =====
-- The bound that the in-memory limiter promises for one identifier, over any sequence of checks.
use mathlib.Core.Path.{subst}
use native.Mathlib.Nat.{le_refl}
use text.Mathlib.TextPositions.{eq_refl}
use multi_ai_agent.Common.{
  ℕ, ◌≤◌, ◌<◌, String, false, Option, none, some, List, [], ◌∷◌, ◌++◌, length, arith, ◌≡◌, ◌≢◌, sym,
  refl, true, inl, inr, str_eq, eq_iff, if◌then◌else◌, Bool-cases, All,
}
use multi_ai_agent.Common.Dict.{Dict, lookup, insert, lookup-insert}
use multi_ai_agent.Limiter.{
  Limiter, ms, cleanup_stale_records, by_ip, or_none, Verdict, passed, limited, in_window,
  is_rate_limited_in_memory, drop_stale, is_stale,
}
use multi_ai_agent.Limiter.Window.{within, Spaced, within-le}
use multi_ai_agent.Limiter.Tracked.{listed, Within, length-Within, insert-Within, drop_where-Within}
use multi_ai_agent.Limiter.Stamps.{
  IsPast, stamps, Inv, cleanup_requests, Inv-same, cleanup-Inv, check-cases, accept-Inv,
}

pub record Check : Type 0 where
  pub now : ℕ
  pub identifier : String
  pub limit : ℕ

admit : String → String → ℕ → Verdict → List ℕ → List ℕ
admit k j now passed h = if str_eq j k then now ∷ h else h
admit k j now (limited n) h = h

-- A sequence of checks by IP, with the times at which requests of one identifier were let
-- through; `none` where a check raises.
unfoldable pub run_checks : String → List Check → Limiter → List ℕ → Option (Limiter × List ℕ)
unfolding admit
run_checks k [] l h = some (l, h)
run_checks k (c ∷ cs) l h = elim (is_rate_limited_in_memory c.now c.identifier by_ip c.limit l) [
  | none ↦ none
  | some (l', verdict) ↦ run_checks k cs l' (admit k c.identifier c.now verdict h)
]

-- The clock does not run backwards.
abbrev pub Ordered : ℕ → List Check → Type 0
Ordered before [] = Unit {0}
Ordered before (c ∷ cs) = (before ≤ c.now) × Ordered c.now cs

admit-not_passed :
    (k j : String) (now : ℕ) (verdict : Verdict) (h : List ℕ)
    → verdict ≢ passed
    → admit k j now verdict h ≡ h
unfolding admit
admit-not_passed k j now passed h n = absurd (n refl)
admit-not_passed k j now (limited r) h n = refl

admit_other :
    (k j : String) (now : ℕ) (h : List ℕ) → str_eq j k ≡ false → admit k j now passed h ≡ h
unfolding admit
admit_other k j now h e = rw e

admit_same : (k : String) (now : ℕ) (h : List ℕ) → admit k k now passed h ≡ now ∷ h
unfolding admit
admit_same k now h = rw eq_refl

cleanup-Within :
    (ids : List String) (now : ℕ) (l : Limiter)
    → length l.requests < l.max_tracked_ips
    → Within ids l.requests
    → Within ids (cleanup_stale_records now false l).requests
unfolding drop_stale
cleanup-Within ids now l small w =
    let facts = cleanup_requests now l small in
    elim facts.2 [
      | inl e ↦ rw e w
      | inr e ↦ rw e (drop_where-Within ids (is_stale now (ms l.window_seconds)) l.requests w)
    ]

-- A request that is let through keeps the invariant of each identifier.
passed-Inv :
    (k j : String) (window limit lim now : ℕ) (h : List ℕ) (d : Limiter)
    → (j ≡ k → lim ≡ limit)
    → length (in_window now (ms d.window_seconds) (stamps j d)) < lim
    → Inv k window limit now h d
    → Inv k window limit now (admit k j now passed h) (record d {
      requests = insert j (in_window now (ms d.window_seconds) (stamps j d) ++ now ∷ []) d.requests;
    })
passed-Inv k j window limit lim now h d same room v = elim (Bool-cases (str_eq j k)) [
  | inl e ↦
      let q : j ≡ k = (eq_iff j k).0 e in
      let at_k = same q in
      subst
        (λ i. Inv k window limit now (admit k i now passed h) (record d {
          requests =
              insert i (in_window now (ms d.window_seconds) (stamps i d) ++ now ∷ []) d.requests;
        }))
        (sym q)
        (subst
          (λ hs. Inv k window limit now hs (record d {
            requests =
                insert k (in_window now (ms d.window_seconds) (stamps k d) ++ now ∷ []) d.requests;
          }))
          (sym (admit_same k now h))
          (accept-Inv k window limit now h d
            (record d {
              requests =
                  insert k (in_window now (ms d.window_seconds) (stamps k d) ++ now ∷ [])
                    d.requests;
            })
            (subst (λ n. length (in_window now (ms n) (stamps k d)) < limit) v.window_kept
              (subst (λ i. length (in_window now (ms d.window_seconds) (stamps i d)) < limit) q
                (rw at_k at room)))
            v.window_kept (simp (lookup-insert, eq_refl, v.window_kept)) v))
  | inr n ↦
      subst
        (λ hs. Inv k window limit now hs (record d {
          requests =
              insert j (in_window now (ms d.window_seconds) (stamps j d) ++ now ∷ []) d.requests;
        }))
        (sym (admit_other k j now h n))
        (Inv-same k window limit now now h d
          (record d {
            requests =
                insert j (in_window now (ms d.window_seconds) (stamps j d) ++ now ∷ []) d.requests;
          })
          refl (simp (lookup-insert, n)) (le_refl now) v)
]

step-Inv :
    (ids : List String) (k : String) (window limit before : ℕ) (c : Check) (h : List ℕ)
    (l l' : Limiter) (verdict : Verdict)
    → length ids < l.max_tracked_ips
    → Within ids l.requests
    → listed c.identifier ids ≡ true
    → before ≤ c.now
    → (c.identifier ≡ k → c.limit ≡ limit)
    → is_rate_limited_in_memory c.now c.identifier by_ip c.limit l ≡ some (l', verdict)
    → Inv k window limit before h l
    → Inv k window limit c.now (admit k c.identifier c.now verdict h) l'
      × Within ids l'.requests
      × (l'.max_tracked_ips ≡ l.max_tracked_ips)
step-Inv ids k window limit before c h l l' verdict few w member le lim ran v =
    let small : length l.requests < l.max_tracked_ips =
      omega (arith, few, length-Within ids l.requests w) in
    let d = cleanup_stale_records c.now false l in
    let v' = cleanup-Inv k window limit before c.now h l small le v in
    let kept = cleanup-Within ids c.now l small w in
    let facts = cleanup_requests c.now l small in
    elim (check-cases c.now c.identifier c.limit l l' verdict ran) [
      | inl p ↦
          let stamped =
            in_window c.now (ms d.window_seconds) (stamps c.identifier d) ++ c.now ∷ [] in
          rw (p.0, p.2)
            (
              passed-Inv k c.identifier window limit c.limit c.now h d lim p.1 v',
              insert-Within ids c.identifier stamped d.requests member kept,
              facts.1,
            )
      | inr r ↦ rw (r.1, admit-not_passed k c.identifier c.now verdict h r.0) (v', kept, facts.1)
    ]

run_checks-step :
    (k : String) (c : Check) (cs : List Check) (h h' : List ℕ) (l l' : Limiter)
    → run_checks k (c ∷ cs) l h ≡ some (l', h')
    → (l1 : Limiter) × (verdict : Verdict) × (is_rate_limited_in_memory c.now c.identifier by_ip
          c.limit l
        ≡ some (l1, verdict))
      × (run_checks k cs l1 (admit k c.identifier c.now verdict h) ≡ some (l', h'))
unfolding run_checks
run_checks-step k c cs h h' l l' ran =
    go (is_rate_limited_in_memory c.now c.identifier by_ip c.limit l) refl
  where
    go :
        (o : Option (Limiter × Verdict))
        → is_rate_limited_in_memory c.now c.identifier by_ip c.limit l ≡ o
        → (l1 : Limiter) × (verdict : Verdict) × (is_rate_limited_in_memory c.now c.identifier by_ip
              c.limit l
            ≡ some (l1, verdict))
          × (run_checks k cs l1 (admit k c.identifier c.now verdict h) ≡ some (l', h'))
    go none e = absurd (ground (arith, e, ran))
    go (some (l1, verdict)) e = (l1, verdict, e, ground (arith, e, ran))

run_checks-Inv :
    (ids : List String) (k : String) (window limit before : ℕ) (cs : List Check) (h h' : List ℕ)
    (l l' : Limiter)
    → length ids < l.max_tracked_ips
    → Within ids l.requests
    → All (λ c. listed c.identifier ids ≡ true) cs
    → Ordered before cs
    → All (λ c. c.identifier ≡ k → c.limit ≡ limit) cs
    → run_checks k cs l h ≡ some (l', h')
    → Inv k window limit before h l
    → Spaced limit (ms window) h'
unfolding run_checks
run_checks-Inv ids k window limit before [] h h' l l' few w members ord lim ran v =
    subst (Spaced limit (ms window)) (ground arith) v.spaced
run_checks-Inv ids k window limit before (c ∷ cs) h h' l l' few w members ord lim ran v =
    let (l1, verdict, checked, rest) = run_checks-step k c cs h h' l l' ran in
    let (v1, w1, cap) =
      step-Inv ids k window limit before c h l l1 verdict few w members.0 ord.0 lim.0 checked v in
    run_checks-Inv ids k window limit c.now cs (admit k c.identifier c.now verdict h) h' l1 l'
      (omega (arith, few, cap)) w1 members.1 ord.1 lim.1 rest v1

-- The promise of the sliding window: as long as the addresses that are checked are fewer than those
-- the limiter tracks and the clock does not run backwards, then in any sequence of checks by address,
-- of the requests that were let through under one identifier, no window of `window_seconds`, wherever
-- it ends, holds more than the limit; the checks of other identifiers, at any limits, and the clean-ups
-- between them included.
pub sliding_window_bound :
    (ids : List String) (k : String) (limit x : ℕ) (cs : List Check) (l l' : Limiter)
    (accepted : List ℕ)
    → l.requests ≡ []
    → length ids < l.max_tracked_ips
    → All (λ c. listed c.identifier ids ≡ true) cs
    → Ordered 0 cs
    → All (λ c. c.identifier ≡ k → c.limit ≡ limit) cs
    → run_checks k cs l [] ≡ some (l', accepted)
    → within (ms l.window_seconds) x accepted ≤ limit
sliding_window_bound ids k limit x cs l l' accepted empty few members ord lim ran =
    within-le limit (ms l.window_seconds) x accepted (
      run_checks-Inv ids k l.window_seconds limit 0 cs [] accepted l l' few
        (subst (Within ids) (sym empty) tt) members ord lim ran
        (record {
          window_kept = refl;
          covers = λ x q. omega arith;
          is_past =
              subst (λ (d : Dict (List ℕ)). IsPast 0 (or_none (lookup k d))) (sym empty)
                (unfold lookup in record { past = tt; peak = tt });
          spaced = tt;
        }))
