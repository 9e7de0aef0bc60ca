-- ===== src/Hub/Defs.antt =====
-- `EventHub` and `EventSubscription`. A subscription is an object that the hub's sets and the event
-- loop share: `objects` holds it under its identity, and `scheduled` is what the loops have been
-- asked to deliver, oldest first.
use diagops.Base.{
  ℕ, Bool, true, false, Option, none, some, List, [], ◌∷◌, ◌++◌, keep, not, ◌||◌, ◌==◌, ltb, length,
  Outcome, ok, guard, value_error, ◌>>◌, if◌then◌else◌,
}
use diagops.Base.Dict
use diagops.Base.Dict.{Dict}
use diagops.Domain.Event.{RuntimeEvent}

pub record EventSubscription : Type 0 where
  pub run_id : ℕ
  pub queue : List RuntimeEvent
  pub loop_is_closed : Bool
  pub closed : Bool

pub record EventHub : Type 0 where
  pub max_queue_size : ℕ
  pub subscribers : Dict (List ℕ)
  pub objects : Dict EventSubscription
  pub scheduled : List (ℕ × RuntimeEvent)

unfoldable pub new_hub : ℕ → Outcome EventHub
new_hub max_queue_size = do
  guard (ltb 0 max_queue_size) value_error
  ok (record {
    max_queue_size = max_queue_size;
    subscribers = Dict.empty;
    objects = Dict.empty;
    scheduled = [];
  })

-- The object with an identity, if there is one.
abbrev pub with_object : {A : Type 0} → Option EventSubscription → A → (EventSubscription → A) → A
with_object none a f = a
with_object (some subscription) a f = f subscription

abbrev pub ids_or_empty : Option (List ℕ) → List ℕ
ids_or_empty none = []
ids_or_empty (some ids) = ids

abbrev pub new_subscription : ℕ → EventSubscription
new_subscription run_id = record {
  run_id = run_id;
  queue = [];
  loop_is_closed = false;
  closed = false;
}

-- `subscribe`; `id` is the identity of the new object.
unfoldable pub subscribe : EventHub → ℕ → ℕ → EventHub
subscribe hub run_id id = record hub {
  subscribers =
      Dict.put hub.subscribers run_id (ids_or_empty (Dict.get hub.subscribers run_id) ++ (id ∷ []));
  objects = Dict.put hub.objects id (new_subscription run_id);
}

-- `if not subscribers: pop`
abbrev pub put_ids : Dict (List ℕ) → ℕ → List ℕ → Dict (List ℕ)
put_ids subscribers run_id [] = Dict.pop subscribers run_id
put_ids subscribers run_id (id ∷ ids) = Dict.put subscribers run_id (id ∷ ids)

abbrev pub discard : Dict (List ℕ) → ℕ → ℕ → Dict (List ℕ)
discard subscribers run_id id = elim (Dict.get subscribers run_id) [
  | none ↦ subscribers
  | some ids ↦ put_ids subscribers run_id (keep (λ i. not (i == id)) ids)
]

-- `unsubscribe`, of an object that has been found
abbrev pub unsubscribe_object : EventHub → ℕ → EventSubscription → EventHub
unsubscribe_object hub id subscription = record hub {
  subscribers = discard hub.subscribers subscription.run_id id;
  objects = Dict.put hub.objects id (record subscription { closed = true });
}

unfoldable pub unsubscribe : EventHub → ℕ → EventHub
unsubscribe hub id = with_object (Dict.get hub.objects id) hub (unsubscribe_object hub id)

-- One subscriber's turn in `publish`.
abbrev pub notify_object : EventHub → RuntimeEvent → ℕ → EventSubscription → EventHub
notify_object hub event id subscription =
    if subscription.closed || subscription.loop_is_closed
    then unsubscribe_object hub id subscription
    else record hub { scheduled = hub.scheduled ++ ((id, event) ∷ []) }

abbrev pub notify : EventHub → RuntimeEvent → ℕ → EventHub
notify hub event id = with_object (Dict.get hub.objects id) hub (notify_object hub event id)

unfoldable pub notify_all : EventHub → RuntimeEvent → List ℕ → EventHub
notify_all hub event [] = hub
notify_all hub event (id ∷ ids) = notify_all (notify hub event id) event ids

-- `publish`; the subscribers of a run are read once for each event.
unfoldable pub publish : EventHub → List RuntimeEvent → EventHub
unfolding notify_all
publish hub [] = hub
publish hub (event ∷ events) =
    publish (notify_all hub event (ids_or_empty (Dict.get hub.subscribers event.run_id))) events

-- `_deliver` to an object that has been found; `put_nowait` refuses an event of a full queue.
abbrev pub deliver_to : EventHub → ℕ → RuntimeEvent → EventSubscription → EventHub
deliver_to hub id event subscription =
    if subscription.closed
    then hub
    else if ltb (length subscription.queue) hub.max_queue_size
    then record hub {
      objects =
          Dict.put hub.objects id
            (record subscription { queue = subscription.queue ++ (event ∷ []) });
    }
    else unsubscribe_object hub id subscription

unfoldable pub deliver : EventHub → ℕ → RuntimeEvent → EventHub
deliver hub id event = with_object (Dict.get hub.objects id) hub (deliver_to hub id event)

-- A loop runs the oldest call that it has been asked for.
abbrev pub run_call : EventHub → List (ℕ × RuntimeEvent) → EventHub
run_call hub [] = hub
run_call hub (call ∷ calls) = deliver (record hub { scheduled = calls }) call.0 call.1

unfoldable pub run_scheduled : EventHub → EventHub
run_scheduled hub = run_call hub hub.scheduled

-- `get`: an event, EventHubOverflow where the queue is empty and closed, or nothing yet.
pub data Got : Type 0 where
  got : RuntimeEvent → Got
  overflow waiting : Got

abbrev pub get_from : EventHub → ℕ → EventSubscription → List RuntimeEvent → Got × EventHub
get_from hub id subscription [] = (if subscription.closed then overflow else waiting, hub)
get_from hub id subscription (event ∷ queue) = (
  got event,
  record hub { objects = Dict.put hub.objects id (record subscription { queue = queue }) },
)

unfoldable pub get : EventHub → ℕ → Got × EventHub
get hub id =
    with_object (Dict.get hub.objects id) (overflow, hub)
      (λ subscription. get_from hub id subscription subscription.queue)

-- The loop of a subscription is closed from outside.
unfoldable pub close_loop : EventHub → ℕ → EventHub
close_loop hub id = with_object (Dict.get hub.objects id) hub (λ subscription. record hub {
  objects = Dict.put hub.objects id (record subscription { loop_is_closed = true });
})
