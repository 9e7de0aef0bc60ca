-- ===== src/Hub/Bounded.antt =====
-- When a hub is sound, in its queues and its sets of subscribers, and what changes one object.
use diagops.Base.{
  contains, contains-append, contains-keep, ℕ, ◌≤◌, Bool, true, false, Option, none, some, List, [],
  ◌∷◌, ◌++◌, ◌≡◌, ◌≢◌, refl, keep, any, not, ◌&&◌, ◌==◌, length, arith, if◌then◌else◌,
}
use diagops.Base.Dict
use diagops.Base.Dict.{Dict, get-put, get-pop}
use diagops.Hub.Defs.{
  EventHub, EventSubscription, ids_or_empty, new_subscription, subscribe, put_ids, discard,
  unsubscribe_object,
}

-- Is this an open subscription to the run?
abbrev pub is_open_at : ℕ → Option EventSubscription → Bool
is_open_at run_id none = false
is_open_at run_id (some subscription) = subscription.run_id == run_id && not subscription.closed

-- No queue is longer than the bound. The set of a run contains exactly its open subscriptions, and
-- the hub keeps no empty set.
pub record IsSound (bound : ℕ) (hub : EventHub) : Type 0 where
  pub max_queue_size : hub.max_queue_size ≡ bound
  pub bounded :
      (id : ℕ) (subscription : EventSubscription)
      → Dict.get hub.objects id ≡ some subscription
      → length subscription.queue ≤ bound
  pub registered :
      (run_id id : ℕ)
      → contains (ids_or_empty (Dict.get hub.subscribers run_id)) id
        ≡ is_open_at run_id (Dict.get hub.objects id)
  pub nonempty : (run_id : ℕ) → Dict.get hub.subscribers run_id ≢ some []

put_ids-get :
    (d : Dict (List ℕ)) (run_id r : ℕ) (ids : List ℕ)
    → ids_or_empty (Dict.get (put_ids d run_id ids) r)
      ≡ (if run_id == r then ids else ids_or_empty (Dict.get d r))
put_ids-get d run_id r [] = rw get-pop (ground arith)
put_ids-get d run_id r (i ∷ ids) = rw get-put (ground arith)

put_ids-nonempty :
    (d : Dict (List ℕ)) (run_id r : ℕ) (ids : List ℕ)
    → Dict.get d r ≢ some []
    → Dict.get (put_ids d run_id ids) r ≢ some []
put_ids-nonempty d run_id r [] h = rw get-pop (ground arith)
put_ids-nonempty d run_id r (i ∷ ids) h = rw get-put (ground arith)

append-nonempty : (ids : List ℕ) (id : ℕ) → ids ++ (id ∷ []) ≢ []
append-nonempty [] id h = cc
append-nonempty (i ∷ ids) id h = cc

discard-at :
    (o : Option (List ℕ)) (d : Dict (List ℕ)) (run_id id r j : ℕ)
    → Dict.get d run_id ≡ o
    → contains (ids_or_empty (Dict.get (discard d run_id id) r)) j
      ≡ (contains (ids_or_empty (Dict.get d r)) j && not (run_id == r && id == j))
unfolding any
discard-at none d run_id id r j found = rw (discard, found) (ground arith)
discard-at (some ids) d run_id id r j found =
    let without = contains-keep ids id j in
    let put = put_ids-get d run_id r (keep (λ i. not (i == id)) ids) in
    rw (discard, found) (ground arith)

discard-contains :
    (d : Dict (List ℕ)) (run_id id r j : ℕ)
    → contains (ids_or_empty (Dict.get (discard d run_id id) r)) j
      ≡ (contains (ids_or_empty (Dict.get d r)) j && not (run_id == r && id == j))
discard-contains d run_id id r j = discard-at (Dict.get d run_id) d run_id id r j refl

discard-nonempty :
    (o : Option (List ℕ)) (d : Dict (List ℕ)) (run_id id r : ℕ)
    → Dict.get d run_id ≡ o
    → Dict.get d r ≢ some []
    → Dict.get (discard d run_id id) r ≢ some []
discard-nonempty none d run_id id r found h = rw (discard, found) h
discard-nonempty (some ids) d run_id id r found h =
    rw (discard, found) (put_ids-nonempty d run_id r (keep (λ i. not (i == id)) ids) h)

module _ (bound : ℕ) (hub : EventHub) (sound : IsSound bound hub) where
  -- An object is written back: its run and whether it is closed are as before.
  pub rewritten-IsSound :
      (id : ℕ) (old new : EventSubscription)
      → Dict.get hub.objects id ≡ some old
      → new.run_id ≡ old.run_id
      → new.closed ≡ old.closed
      → length new.queue ≤ bound
      → IsSound bound (record hub { objects = Dict.put hub.objects id new })
  rewritten-IsSound id old new found same_run same_closed fits = record {
    max_queue_size = sound.max_queue_size;
    bounded = λ j subscription at_j.
        let others = sound.bounded j subscription in
        let put = get-put hub.objects id j new in ground arith;
    registered = λ r j.
        let before = sound.registered r j in let put = get-put hub.objects id j new in ground arith;
    nonempty = sound.nonempty;
  }

  pub unsubscribe_object-IsSound :
      (id : ℕ) (subscription : EventSubscription)
      → Dict.get hub.objects id ≡ some subscription
      → IsSound bound (unsubscribe_object hub id subscription)
  unsubscribe_object-IsSound id subscription found = record {
    max_queue_size = sound.max_queue_size;
    bounded = λ j other at_j.
        let others = sound.bounded j other in
        let here = sound.bounded id subscription found in
        let put = get-put hub.objects id j (record subscription { closed = true }) in ground arith;
    registered = λ r j.
        let before = sound.registered r j in
        let put = get-put hub.objects id j (record subscription { closed = true }) in
        let set = discard-contains hub.subscribers subscription.run_id id r j in ground arith;
    nonempty = λ r.
        discard-nonempty (Dict.get hub.subscribers subscription.run_id) hub.subscribers
          subscription.run_id id r refl (sound.nonempty r);
  }

  pub subscribe-IsSound :
      (run_id id : ℕ) → Dict.get hub.objects id ≡ none → IsSound bound (subscribe hub run_id id)
  unfolding subscribe
  subscribe-IsSound run_id id fresh = record {
    max_queue_size = sound.max_queue_size;
    bounded = λ j other at_j.
        let others = sound.bounded j other in
        let put = get-put hub.objects id j (new_subscription run_id) in ground arith;
    registered = λ r j.
        let before = sound.registered r j in
        let put = get-put hub.objects id j (new_subscription run_id) in
        let set =
          get-put hub.subscribers run_id r
            (ids_or_empty (Dict.get hub.subscribers run_id) ++ (id ∷ [])) in
        let held = contains-append (ids_or_empty (Dict.get hub.subscribers run_id)) id j in
        ground arith;
    nonempty = λ r.
        let before = sound.nonempty r in
        let more = append-nonempty (ids_or_empty (Dict.get hub.subscribers run_id)) id in
        rw get-put (ground arith);
  }
