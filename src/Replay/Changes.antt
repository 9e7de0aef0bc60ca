-- ===== src/Replay/Changes.antt =====
-- What an event can change, class by class: the rules that invariants of the lifecycle go by.
use diagops.Base.{
  ℕ, Bool, true, false, not, Option, none, some, List, ◌≡◌, refl, arith, ◌==◌, contains, suc, ltb,
  Outcome, ok, err, Bool-cases, opt_eq, ◌⊎◌, inl, inr, branch-keeps,
}
use diagops.Base.Dict
use diagops.Domain.Names.{EventType}
use diagops.Domain.Event.{RuntimeEvent}
use diagops.Domain.Names.{Phase}
use diagops.Phases.Order.{index}
use diagops.Replay.Lifecycle.{EventClass, class_of}
use diagops.Replay.Validate.{order_phase_at, order_phase_of, order_phase}
use diagops.Replay.State.{ToolState, LifecycleState, Advance}
use diagops.Replay.Tools.{
  tool_key, with_tool, with_parent, move_tool, advance_tool_by, advance_tool,
}

-- The tool's new state, if the move is accepted.
abbrev pub MovesTool : LifecycleState → ℕ → ℕ → Option ToolState → LifecycleState → Type 0
MovesTool state key parent old new =
    (new ≡ state)
    ⊎ ((old ≡ none) × (new ≡ with_parent state key ToolState.proposed parent))
    ⊎ ((old ≡ none) × (new ≡ with_parent state key ToolState.started parent))
    ⊎ ((old ≡ some ToolState.proposed) × (new ≡ with_parent state key ToolState.started parent))
    ⊎ ((old ≡ some ToolState.proposed) × (new ≡ with_tool state key ToolState.terminal))
    ⊎ ((old ≡ some ToolState.started) × (new ≡ with_tool state key ToolState.terminal))

move_tool-MovesTool :
    (state : LifecycleState) (event_type : EventType) (key parent : ℕ) (o : Option ToolState)
    (same_parent : Bool)
    → MovesTool state key parent o (move_tool state event_type key parent o same_parent).state
move_tool-MovesTool state event_type key parent o same_parent = ground arith

advance_tool_by-keeps :
    (P : LifecycleState → Type 0) (state : LifecycleState) (event : RuntimeEvent) (o : Option ℕ)
    → P state
    → ((parent : ℕ) (new : LifecycleState)
        → contains state.open_agents parent ≡ true
        → MovesTool state (tool_key event) parent (Dict.get state.tool_states (tool_key event)) new
        → P new)
    → P (advance_tool_by state event o).state
advance_tool_by-keeps P state event none p moves = p
advance_tool_by-keeps P state event (some parent) p moves =
    let old = Dict.get state.tool_states (tool_key event) in
    let own = opt_eq (Dict.get state.tool_parents (tool_key event)) (some parent) in
    branch-keeps (λ (a : Advance). P a.state) (not (contains state.open_agents parent)) _ _ (λ _. p)
      (λ e.
        moves parent _ (is_open e)
          (move_tool-MovesTool state event.event_type (tool_key event) parent old own))
  where
    is_open :
        not (contains state.open_agents parent) ≡ false → contains state.open_agents parent ≡ true
    is_open e = ground arith

-- A tool event changes nothing, or moves one tool whose parent is an open agent.
pub advance_tool-keeps :
    (P : LifecycleState → Type 0) (state : LifecycleState) (event : RuntimeEvent)
    → P state
    → ((parent : ℕ) (new : LifecycleState)
        → contains state.open_agents parent ≡ true
        → MovesTool state (tool_key event) parent (Dict.get state.tool_states (tool_key event)) new
        → P new)
    → P (advance_tool state event).state
unfolding advance_tool
advance_tool-keeps P state event p moves =
    branch-keeps (λ (a : Advance). P a.state) (tool_key event == 0) _ _ (λ _. p)
      (λ _. advance_tool_by-keeps P state event event.actor_name p moves)

order_phase_at-is :
    (state : LifecycleState) (o : Outcome ℕ)
    → (n : ℕ) × ((order_phase_at state o).state ≡ record state { phase_order_index = n })
order_phase_at-is state (err e) = (state.phase_order_index, refl)
order_phase_at-is state (ok i) = elim (Bool-cases (ltb (suc i) state.phase_order_index)) [
  | inl e ↦ (state.phase_order_index, rw e refl)
  | inr e ↦ (suc i, rw e refl)
]

order_phase_of-is :
    (order : List Phase) (state : LifecycleState) (c : EventClass) (phase : Option Phase)
    → ((order_phase_of order state c phase).state ≡ state)
      ⊎ ((n : ℕ) × ((order_phase_of order state c phase).state
            ≡ record state { phase_order_index = n }))
order_phase_of-is order state EventClass.phase_started (some p) =
    inr (order_phase_at-is state (index p order))
order_phase_of-is order state c phase = inl (ground arith)

-- The check of the phase order changes nothing but the index that it keeps.
pub order_phase-is :
    (order : List Phase) (state : LifecycleState) (event : RuntimeEvent)
    → (n : ℕ) × ((order_phase order state event).state ≡ record state { phase_order_index = n })
unfolding order_phase
order_phase-is order state event =
    elim (order_phase_of-is order state (class_of event.event_type) event.phase) [
      | inl e ↦ (state.phase_order_index, e)
      | inr changed ↦ changed
    ]
