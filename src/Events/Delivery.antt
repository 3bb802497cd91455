-- ===== src/Events/Delivery.antt =====
-- Who is notified of an event.
use multi_ai_agent.Common.{
  String, Bool, true, false, not, ◌||◌, ◌&&◌, Option, none, some, List, [], ◌∷◌, ◌++◌, ◌≡◌, refl,
  ◌∙◌, ap, inl, inr, arith, str_eq, eq_iff, keep, All, is_some, if◌then◌else◌, Bool-cases,
}
use multi_ai_agent.Common.Dict.{Dict, lookup, insert, erase, lookup-insert, lookup-erase, any-keep}
use multi_ai_agent.Events.{
  Kind, event_type, Dispatcher, new_dispatcher, subscribed, subscribe, unsubscribe,
  clear_subscribers, passes_filter, eligible, Handling, is_cancelled, notify, publish, no_types,
}

pub data Op : Type 0 where
  subscribes : (x : String) (types : List String) → Op
  unsubscribes : (x : String) → Op
  clears : Op

unfoldable pub apply : Op → Dispatcher → Dispatcher
apply (subscribes x types) d = subscribe x types d
apply (unsubscribes x) d = unsubscribe x d
apply clears d = clear_subscribers d

unfoldable pub run_ops : List Op → Dispatcher → Dispatcher
run_ops [] d = d
run_ops (op ∷ ops) d = run_ops ops (apply op d)

-- What each subscriber last asked for: the types of its subscription, or none.
abbrev pub Wishes : Type 0
Wishes = String → Option (List String)

abbrev pub wish : Op → Wishes → Wishes
wish (subscribes x types) w = λ y. if str_eq x y then some types else w y
wish (unsubscribes x) w = λ y. if str_eq x y then none else w y
wish clears w = λ y. none

abbrev pub wishes : List Op → Wishes → Wishes
wishes [] w = w
wishes (op ∷ ops) w = wishes ops (wish op w)

-- An empty list of types asks for every event.
abbrev pub wants : Kind → Option (List String) → Bool
wants event none = false
wants event (some types) = no_types types || subscribed (event_type event) types

-- The filter that the dictionary has for a wish.
abbrev filter_of : Option (List String) → Option (List String)
filter_of none = none
filter_of (some []) = none
filter_of (some (t ∷ ts)) = some (t ∷ ts)

record Follows (w : Wishes) (d : Dispatcher) : Type 0 where
  known : (x : String) → subscribed x d.subscribers ≡ is_some (w x)
  filters : (x : String) → lookup x d.type_filters ≡ filter_of (w x)

subscribed-append :
    (x y : String) (xs : List String)
    → subscribed x (xs ++ y ∷ []) ≡ (subscribed x xs || str_eq y x)
subscribed-append x y [] = ground arith
subscribed-append x y (z ∷ xs) = ground (arith, subscribed-append x y xs)

subscribed_add :
    (x y : String) (xs : List String)
    → subscribed y (if subscribed x xs then xs else xs ++ x ∷ []) ≡ (str_eq x y || subscribed y xs)
subscribed_add x y xs = elim (Bool-cases (str_eq x y)) [
  | inl e ↦ rw ((eq_iff x y).0 e) (ground (arith, subscribed-append y y xs, eq_iff y y))
  | inr n ↦ rw n (ground (arith, n, subscribed-append y x xs))
]

filter_add :
    (x y : String) (types : List String) (d : Dict (List String))
    → lookup y (if no_types types then erase x d else insert x types d)
      ≡ (if str_eq x y then filter_of (some types) else lookup y d)
filter_add x y [] d = lookup-erase x y d
filter_add x y (t ∷ ts) d = lookup-insert x y (t ∷ ts) d

subscribed_drop :
    (x y : String) (xs : List String)
    → subscribed y (keep (λ z. not (str_eq z x)) xs) ≡ (not (str_eq y x) && subscribed y xs)
subscribed_drop x y xs = any-keep (λ (z : String). not (str_eq z x)) y xs

apply-Follows :
    (op : Op) (w : Wishes) (d : Dispatcher) → Follows w d → Follows (wish op w) (apply op d)
unfolding apply subscribe unsubscribe clear_subscribers lookup
apply-Follows (subscribes x types) w d h = record {
  known = λ y. ground (arith, subscribed_add x y d.subscribers, h.known y);
  filters = λ y. filter_add x y types d.type_filters ∙ ground (arith, h.filters y);
}
apply-Follows (unsubscribes x) w d h = record {
  known = λ y. ground (arith, subscribed_drop x y d.subscribers, h.known y, eq_iff x y, eq_iff y x);
  filters = λ y. lookup-erase x y d.type_filters ∙ ground (arith, h.filters y);
}
apply-Follows clears w d h = record { known = λ y. refl; filters = λ y. refl }

run_ops-Follows :
    (ops : List Op) (w : Wishes) (d : Dispatcher)
    → Follows w d
    → Follows (wishes ops w) (run_ops ops d)
unfolding run_ops
run_ops-Follows [] w d h = h
run_ops-Follows (op ∷ ops) w d h =
    run_ops-Follows ops (wish op w) (apply op d) (apply-Follows op w d h)

notify_finished :
    (on_event : String → Handling) (xs : List String)
    → All (λ x. is_cancelled (on_event x) ≡ false) xs
    → notify on_event xs ≡ (xs, true)
unfolding notify
notify_finished on_event [] h = refl
notify_finished on_event (x ∷ xs) h = rw (notify_finished on_event xs h.1) (rw h.0 refl)

none_cancelled :
    (on_event : String → Handling) (xs : List String)
    → ((x : String) → is_cancelled (on_event x) ≡ false)
    → All (λ x. is_cancelled (on_event x) ≡ false) xs
none_cancelled on_event [] h = tt
none_cancelled on_event (x ∷ xs) h = (h x, none_cancelled on_event xs h)

passes_wish :
    (event : Kind) (o : Option (List String))
    → (passes_filter (event_type event) (filter_of o) && is_some o) ≡ wants event o
passes_wish event none = ground arith
passes_wish event (some []) = refl
passes_wish event (some (t ∷ ts)) = ground arith

new_Follows : Follows (λ y. none) new_dispatcher
unfolding new_dispatcher lookup
new_Follows = record { known = λ y. refl; filters = λ y. refl }

chosen_wish :
    (w : Wishes) (d : Dispatcher) (event : Kind) (x : String)
    → Follows w d
    → (eligible d event x && subscribed x d.subscribers) ≡ wants event (w x)
unfolding eligible
chosen_wish w d event x f = rw (f.filters x, f.known x) (passes_wish event (w x))

-- Whatever the handlers raise, short of a cancellation, and after any sequence of subscriptions: the
-- publication ends, and it calls a subscriber exactly if the last that the subscriber asked for was
-- every event, or types with the event's own among them.
pub publish_lem :
    (on_event : String → Handling) (event : Kind) (ops : List Op) (x : String)
    → ((y : String) → is_cancelled (on_event y) ≡ false)
    → let result = publish on_event event (run_ops ops new_dispatcher) in
      (result.1 ≡ true) × (subscribed x result.0 ≡ wants event (wishes ops (λ y. none) x))
unfolding publish
publish_lem on_event event ops x h =
    let d = run_ops ops new_dispatcher in
    let f : Follows (wishes ops (λ y. none)) d =
      run_ops-Follows ops (λ y. none) new_dispatcher new_Follows in
    let chosen = keep (eligible d event) d.subscribers in
    let all = notify_finished on_event chosen (none_cancelled on_event chosen h) in
    (
      ap (λ (r : List String × Bool). r.1) all,
      ap (λ (r : List String × Bool). subscribed x r.0) all
          ∙ any-keep (eligible d event) x d.subscribers
          ∙ chosen_wish (wishes ops (λ y. none)) d event x f,
    )
