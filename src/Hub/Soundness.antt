-- ===== src/Hub/Soundness.antt =====
-- The operations of the hub, one by one and in sequence, against `IsSound`.
use diagops.Base.{
  ℕ, ◌≤◌, Option, none, some, List, [], ◌∷◌, ◌≡◌, refl, ◌||◌, ltb, length, length-append, arith,
  branch-keeps, any, ok,
}
use diagops.Base.Dict
use diagops.Base.Dict.{get-empty, get-put}
use diagops.Domain.Event.{RuntimeEvent}
use diagops.Hub.Defs.{
  EventHub, EventSubscription, new_hub, ids_or_empty, unsubscribe, notify, notify_all, publish,
  deliver_to, deliver, run_scheduled, get_from, get, Got, with_object, run_call, close_loop,
}
use diagops.Hub.Moves.{
  Move, subscribed, unsubscribed, published, notified, ran, read, loop_closed, Moves, Moves-keeps,
}
use diagops.Hub.Bounded.{IsSound, rewritten-IsSound, unsubscribe_object-IsSound, subscribe-IsSound}

-- What is scheduled does not matter.
scheduled-IsSound :
    {bound : ℕ} (hub : EventHub) (calls : List (ℕ × RuntimeEvent))
    → IsSound bound hub
    → IsSound bound (record hub { scheduled = calls })
scheduled-IsSound hub calls sound = record {
  max_queue_size = sound.max_queue_size;
  bounded = sound.bounded;
  registered = sound.registered;
  nonempty = sound.nonempty;
}

with_object-keeps :
    {A : Type 0} (P : A → Type 0) (o : Option EventSubscription) (a : A) (f : EventSubscription → A)
    → P a
    → ((subscription : EventSubscription) → o ≡ some subscription → P (f subscription))
    → P (with_object o a f)
with_object-keeps P none a f p q = p
with_object-keeps P (some subscription) a f p q = q subscription refl

module _ (bound : ℕ) (hub : EventHub) (sound : IsSound bound hub) where
  unsubscribe-IsSound : (id : ℕ) → IsSound bound (unsubscribe hub id)
  unfolding unsubscribe
  unsubscribe-IsSound id =
      with_object-keeps (IsSound bound) (Dict.get hub.objects id) hub _ sound
        (unsubscribe_object-IsSound bound hub sound id)

  notify-IsSound : (event : RuntimeEvent) (id : ℕ) → IsSound bound (notify hub event id)
  notify-IsSound event id =
      with_object-keeps (IsSound bound) (Dict.get hub.objects id) hub _ sound (λ subscription found.
        branch-keeps (IsSound bound) (subscription.closed || subscription.loop_is_closed) _ _
          (λ e. unsubscribe_object-IsSound bound hub sound id subscription found)
          (λ e. scheduled-IsSound hub _ sound))

  deliver_to-IsSound :
      (id : ℕ) (event : RuntimeEvent) (subscription : EventSubscription)
      → Dict.get hub.objects id ≡ some subscription
      → IsSound bound (deliver_to hub id event subscription)
  deliver_to-IsSound id event subscription found =
      branch-keeps (IsSound bound) subscription.closed _ _ (λ e. sound)
        (λ e.
          branch-keeps (IsSound bound) (ltb (length subscription.queue) hub.max_queue_size) _ _
            (λ room.
              let size = sound.max_queue_size in
              let longer = length-append subscription.queue (event ∷ []) in
              rewritten-IsSound bound hub sound id subscription _ found refl refl (ground arith))
            (λ full. unsubscribe_object-IsSound bound hub sound id subscription found))

  deliver-IsSound : (id : ℕ) (event : RuntimeEvent) → IsSound bound (deliver hub id event)
  unfolding deliver
  deliver-IsSound id event =
      with_object-keeps (IsSound bound) (Dict.get hub.objects id) hub _ sound
        (deliver_to-IsSound id event)

  get_from-IsSound :
      (id : ℕ) (subscription : EventSubscription) (queue : List RuntimeEvent)
      → Dict.get hub.objects id ≡ some subscription
      → length queue ≤ bound
      → IsSound bound (get_from hub id subscription queue).1
  get_from-IsSound id subscription [] found fits = sound
  get_from-IsSound id subscription (event ∷ queue) found fits =
      rewritten-IsSound bound hub sound id subscription _ found refl refl (omega arith)

  get-IsSound : (id : ℕ) → IsSound bound (get hub id).1
  unfolding get
  get-IsSound id =
      with_object-keeps (λ (r : Got × EventHub). IsSound bound r.1) (Dict.get hub.objects id) _ _
        sound
        (λ subscription found.
          get_from-IsSound id subscription subscription.queue found
            (sound.bounded id subscription found))

  close_loop-IsSound : (id : ℕ) → IsSound bound (close_loop hub id)
  unfolding close_loop
  close_loop-IsSound id =
      with_object-keeps (IsSound bound) (Dict.get hub.objects id) hub _ sound (λ subscription found.
        rewritten-IsSound bound hub sound id subscription _ found refl refl
          (sound.bounded id subscription found))

notify_all-IsSound :
    {bound : ℕ} (hub : EventHub) (event : RuntimeEvent) (ids : List ℕ)
    → IsSound bound hub
    → IsSound bound (notify_all hub event ids)
unfolding notify_all
notify_all-IsSound hub event [] sound = sound
notify_all-IsSound {bound} hub event (id ∷ ids) sound =
    notify_all-IsSound (notify hub event id) event ids (notify-IsSound bound hub sound event id)

publish-IsSound :
    {bound : ℕ} (hub : EventHub) (events : List RuntimeEvent)
    → IsSound bound hub
    → IsSound bound (publish hub events)
unfolding publish
publish-IsSound hub [] sound = sound
publish-IsSound hub (event ∷ events) sound =
    let ids = ids_or_empty (Dict.get hub.subscribers event.run_id) in
    publish-IsSound (notify_all hub event ids) events (notify_all-IsSound hub event ids sound)

run_call-IsSound :
    {bound : ℕ} (hub : EventHub) (calls : List (ℕ × RuntimeEvent))
    → IsSound bound hub
    → IsSound bound (run_call hub calls)
run_call-IsSound hub [] sound = sound
run_call-IsSound {bound} hub (call ∷ calls) sound =
    deliver-IsSound bound (record hub { scheduled = calls }) (scheduled-IsSound hub calls sound)
      call.0 call.1

Move-IsSound : {bound : ℕ} (a b : EventHub) → Move a b → IsSound bound a → IsSound bound b
Move-IsSound {bound} a _ (subscribed run_id id fresh) sound =
    subscribe-IsSound bound a sound run_id id fresh
Move-IsSound {bound} a _ (unsubscribed id) sound = unsubscribe-IsSound bound a sound id
Move-IsSound a _ (published events) sound = publish-IsSound a events sound
Move-IsSound {bound} a _ (notified event id) sound = notify-IsSound bound a sound event id
Move-IsSound a _ ran sound = unfold run_scheduled in run_call-IsSound a a.scheduled sound
Move-IsSound {bound} a _ (read id) sound = get-IsSound bound a sound id
Move-IsSound {bound} a _ (loop_closed id) sound = close_loop-IsSound bound a sound id

new_hub-IsSound : (bound : ℕ) (hub : EventHub) → new_hub bound ≡ ok hub → IsSound bound hub
unfolding new_hub any
new_hub-IsSound bound hub h = record {
  max_queue_size = ground arith;
  bounded =
      λ id subscription found. let none_at = get-empty {V = EventSubscription} id in ground arith;
  registered = λ r id.
      let none_at = get-empty {V = EventSubscription} id in
      let no_set = get-empty {V = List ℕ} r in ground arith;
  nonempty = λ r. let no_set = get-empty {V = List ℕ} r in ground arith;
}

-- After any sequence of moves of a hub made for queues of `bound` events: no queue holds more than
-- `bound` events, the set of a run holds exactly the subscriptions to it that are not closed, and
-- no set that the hub keeps is empty.
pub Moves-IsSound :
    (bound : ℕ) (start hub : EventHub)
    → new_hub bound ≡ ok start
    → Moves start hub
    → IsSound bound hub
Moves-IsSound bound start hub made moves =
    Moves-keeps (IsSound bound) Move-IsSound moves (new_hub-IsSound bound start made)
