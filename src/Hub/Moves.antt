-- ===== src/Hub/Moves.antt =====
-- What can happen to a hub: calls of its methods, turns of the loops, and a loop that closes.
use diagops.Base.{ℕ, List, none, ◌≡◌}
use diagops.Base.Dict
use diagops.Domain.Event.{RuntimeEvent}
use diagops.Hub.Defs.{
  EventHub, subscribe, unsubscribe, notify, publish, run_scheduled, get, close_loop,
}

-- A new object has an identity that no object has. `publish` holds no lock between its subscribers:
-- `notified` is the turn of one of them, so that other moves may come between two turns.
pub data Move : EventHub → EventHub → Type 0 where
  subscribed :
      {hub : EventHub} (run_id id : ℕ)
      → Dict.get hub.objects id ≡ none
      → Move hub (subscribe hub run_id id)
  unsubscribed : {hub : EventHub} (id : ℕ) → Move hub (unsubscribe hub id)
  published : {hub : EventHub} (events : List RuntimeEvent) → Move hub (publish hub events)
  notified : {hub : EventHub} (event : RuntimeEvent) (id : ℕ) → Move hub (notify hub event id)
  ran : {hub : EventHub} → Move hub (run_scheduled hub)
  read : {hub : EventHub} (id : ℕ) → Move hub (get hub id).1
  loop_closed : {hub : EventHub} (id : ℕ) → Move hub (close_loop hub id)

pub data Moves : EventHub → EventHub → Type 0 where
  stay : {hub : EventHub} → Moves hub hub
  then_move : {a b c : EventHub} → Move a b → Moves b c → Moves a c

pub Moves-keeps :
    (P : EventHub → Type 0)
    → ((a b : EventHub) → Move a b → P a → P b)
    → {a b : EventHub} → Moves a b
    → P a
    → P b
Moves-keeps P keeps stay p = p
Moves-keeps P keeps (then_move {a} {b} m ms) p = Moves-keeps P keeps ms (keeps a b m p)
