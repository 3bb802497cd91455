-- ===== src/Events.antt =====
-- tripmate/events: the dispatcher of workflow events, the events and the subscribers. A subscriber is
-- its name, and the set of them is a list without repetition, in the order of its iteration.
pub mod Delivery
use Prim.Native.String.{◌++◌ as append}
use multi_ai_agent.Common.{
  ℕ, String, Bool, true, false, not, ◌||◌, ◌&&◌, Option, none, some, List, [], ◌∷◌, ◌++◌, str_eq,
  any, keep, if◌then◌else◌,
}
use multi_ai_agent.Common.Dict.{Dict, lookup, insert, erase}
use multi_ai_agent.Metrics.{Registry, record_agent_execution}

-- The classes of events; the base class has a type of its own.
pub data Kind : Type 0 where
  plain started supervisor_completed specialists_completed critic_completed itinerary_completed
        approval_required workflow_completed workflow_failed :
      Kind

unfoldable pub event_type : Kind → String
event_type plain = "workflow.event"
event_type started = "workflow.started"
event_type supervisor_completed = "supervisor.completed"
event_type specialists_completed = "specialists.completed"
event_type critic_completed = "critic.completed"
event_type itinerary_completed = "itinerary.completed"
event_type approval_required = "approval.required"
event_type workflow_completed = "workflow.completed"
event_type workflow_failed = "workflow.failed"

pub record Dispatcher : Type 0 where
  pub subscribers : List String
  pub type_filters : Dict (List String)

unfoldable pub new_dispatcher : Dispatcher
new_dispatcher = record { subscribers = []; type_filters = [] }

abbrev pub subscribed : String → List String → Bool
subscribed x xs = any (λ y. str_eq y x) xs

abbrev pub no_types : List String → Bool
no_types [] = true
no_types (t ∷ ts) = false

-- An empty list of types stands for every event.
unfoldable pub subscribe : String → List String → Dispatcher → Dispatcher
subscribe x types d = record d {
  subscribers = if subscribed x d.subscribers then d.subscribers else d.subscribers ++ x ∷ [];
  type_filters = if no_types types then erase x d.type_filters else insert x types d.type_filters;
}

unfoldable pub unsubscribe : String → Dispatcher → Dispatcher
unsubscribe x d = record d {
  subscribers = keep (λ y. not (str_eq y x)) d.subscribers;
  type_filters = erase x d.type_filters;
}

unfoldable pub clear_subscribers : Dispatcher → Dispatcher
clear_subscribers d = record d { subscribers = []; type_filters = [] }

-- `filter_types is None or event.event_type in filter_types`
abbrev pub passes_filter : String → Option (List String) → Bool
passes_filter type none = true
passes_filter type (some types) = subscribed type types

unfoldable pub eligible : Dispatcher → Kind → String → Bool
eligible d event x = passes_filter (event_type event) (lookup x d.type_filters)

-- How a handler ends: an exception that is caught and logged, or a cancellation, which is none.
pub data Handling : Type 0 where
  handled failed cancelled : Handling

abbrev pub is_cancelled : Handling → Bool
is_cancelled cancelled = true
is_cancelled _ = false

-- The subscribers that were called, and whether the loop came to its end.
unfoldable pub notify : (String → Handling) → List String → List String × Bool
notify on_event [] = ([], true)
notify on_event (x ∷ xs) =
    let (called, finished) = notify on_event xs in
    if is_cancelled (on_event x) then (x ∷ [], false) else (x ∷ called, finished)

unfoldable pub publish : (String → Handling) → Kind → Dispatcher → List String × Bool
unfolding notify eligible
publish on_event event d = notify on_event (keep (eligible d event) d.subscribers)

-- MetricsCollectorSubscriber.
unfoldable pub collect_metrics : Kind → Registry → Registry
collect_metrics workflow_completed r = record_agent_execution "workflow" "success" 0 r
collect_metrics workflow_failed r = record_agent_execution "workflow" "failure" 0 r
collect_metrics supervisor_completed r = record_agent_execution "supervisor" "completed" 0 r
collect_metrics _ r = r

-- SSEEventBridgeSubscriber: the text it puts in the queue, from the event's data as JSON.
unfoldable pub sse_text : String → Kind → Option String
unfolding event_type
sse_text json plain = none
sse_text json event =
    some (append "event: " (append (event_type event) (append "\ndata: " (append json "\n\n"))))
