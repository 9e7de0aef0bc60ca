-- ===== src/Replay/Nesting.antt =====
-- How the open work of a replayed run is nested: models and tools in agents, agents in a phase,
-- a phase in an attempt.
use mathlib.Core.Path.{subst}
use diagops.Base.{
  ℕ, Bool, true, false, not, ◌||◌, ◌&&◌, Option, none, some, List, [], ◌≡◌, refl, arith, ◌==◌, any,
  contains, contains-keep, any-contains, is_some, id_or_empty, opt_eq, branch-keeps, if◌then◌else◌,
}
use mathlib.Core.Option
use diagops.Base.Dict
use diagops.Base.Dict.{get-empty, get-put, get-pop, get-update_values, get-keys, any-values-get}
use diagops.Domain.Event.{RuntimeEvent}
use diagops.Domain.Status.{RunStatus}
use diagops.Replay.State.{
  ReplayError, ToolState, LifecycleState, flag, is_empty, tool_is_open, add, remove, made_terminal,
  close_interrupted_work,
}
use diagops.Replay.Lifecycle.{
  is_placed, in_open_phase, start_agent, end_agent, start_model, end_model, agent_is_open,
  parents_open_tool,
}

-- `a` only where `b`
infix 2 ◌⟹◌
abbrev pub ◌⟹◌ : Bool → Bool → Bool
true ⟹ b = b
false ⟹ b = true

-- The status of a run whose attempt has not ended.
abbrev pub is_live : RunStatus → Bool
is_live RunStatus.running = true
is_live RunStatus.cancelling = true
is_live RunStatus.interrupted = true
is_live _ = false

-- An open model call and an open tool call belong to an open agent, agents are open only in an
-- open phase, a phase only in an active attempt, and an attempt is active only in a live run.
pub record IsNested (state : LifecycleState) : Type 0 where
  pub models :
      (k : ℕ)
      → (is_some (Dict.get state.open_models k)
          ⟹ agent_is_open state (Dict.get state.open_models k))
        ≡ true
  pub tools :
      (k : ℕ)
      → (tool_is_open (Dict.get state.tool_states k)
          ⟹ agent_is_open state (Dict.get state.tool_parents k))
        ≡ true
  pub agents : (not (is_empty state.open_agents) ⟹ is_some state.open_phase) ≡ true
  pub phases : (is_some state.open_phase ⟹ is_some state.active_attempt_id) ≡ true
  pub attempts : (not (id_or_empty state.active_attempt_id == 0) ⟹ is_live state.run_status) ≡ true

contains-add : (xs : List ℕ) (x y : ℕ) → contains (add xs x) y ≡ (x == y || contains xs y)
unfolding any
contains-add xs x y = ground arith

unflagged_by : (b : Bool) (error : ReplayError) → flag b error ≡ [] → b ≡ false
unflagged_by b error h = ground arith

closed_tool :
    (a : Bool) (o : Option ToolState) {new : Option ToolState}
    → new ≡ Option.map made_terminal o
    → (tool_is_open new ⟹ a) ≡ true
closed_tool a none h = ground arith
closed_tool a (some s) h = ground arith

-- More agents are open.
grown :
    (a : Bool) (xs : List ℕ) (x : ℕ) (o : Option ℕ) (state : LifecycleState)
    → state.open_agents ≡ xs
    → (a ⟹ agent_is_open state o) ≡ true
    → (a ⟹ agent_is_open (record state { open_agents = add xs x }) o) ≡ true
grown false xs x o state is h = refl
grown true xs x none state is h = h
grown true xs x (some y) state is h = let added = contains-add xs x y in ground arith

-- An agent that nothing open belongs to is taken out.
shrunk :
    (a : Bool) (x : ℕ) (o : Option ℕ) (state : LifecycleState)
    → (a && opt_eq o (some x)) ≡ false
    → (a ⟹ agent_is_open state o) ≡ true
    → (a ⟹ agent_is_open (record state { open_agents = remove state.open_agents x }) o) ≡ true
shrunk false x o state free h = refl
shrunk true x none state free h = h
shrunk true x (some y) state free h = let kept = contains-keep state.open_agents x y in ground arith

model_free :
    (state : LifecycleState) (x k : ℕ) (o : Option ℕ)
    → Dict.get state.open_models k ≡ o
    → contains (Dict.values state.open_models) x ≡ false
    → (is_some o && opt_eq o (some x)) ≡ false
model_free state x k none found none_of = refl
model_free state x k (some y) found none_of =
    let other = any-values-get (λ y. y == x) state.open_models k y none_of found in ground arith

tool_free :
    (state : LifecycleState) (x k : ℕ) (o : Option ℕ)
    → Dict.get state.tool_parents k ≡ o
    → parents_open_tool state x ≡ false
    → (tool_is_open (Dict.get state.tool_states k) && opt_eq o (some x)) ≡ false
unfolding parents_open_tool
tool_free state x k none found none_of = ground arith
tool_free state x k (some y) found none_of =
    let listed = get-keys state.tool_parents k y found in
    let free = any-contains _ (Dict.keys state.tool_parents) k none_of listed in
    let at_k =
      subst (λ o. (opt_eq o (some x) && tool_is_open (Dict.get state.tool_states k)) ≡ false) found
        free in
    ground arith

-- All work is closed; the attempt stays as it is, or ends.
pub closed-IsNested :
    (state : LifecycleState) (clear_attempt : Bool)
    → (not (id_or_empty (if clear_attempt then none else state.active_attempt_id) == 0)
        ⟹ is_live state.run_status)
      ≡ true
    → IsNested (close_interrupted_work state clear_attempt)
unfolding close_interrupted_work
closed-IsNested state clear_attempt attempts = record {
  models = λ k. let gone = get-empty {V = ℕ} k in ground arith;
  tools = λ k.
      let ended = get-update_values made_terminal state.tool_states k in
      closed_tool _ (Dict.get state.tool_states k) ended;
  agents = refl;
  phases = refl;
  attempts = attempts;
}

module _ (state : LifecycleState) (event : RuntimeEvent) (nested : IsNested state) where
  pub start_agent-IsNested : (o : Option ℕ) → IsNested (start_agent state event o).state
  start_agent-IsNested none = nested
  start_agent-IsNested (some key) =
      branch-keeps IsNested (contains state.open_agents key || not (is_placed state event)) state _
        (λ _. nested)
        (λ right. record {
          models = λ k. grown _ state.open_agents key _ state refl (nested.models k);
          tools = λ k. grown _ state.open_agents key _ state refl (nested.tools k);
          agents = ground arith;
          phases = nested.phases;
          attempts = nested.attempts;
        })

  pub end_agent-IsNested : (o : Option ℕ) → IsNested (end_agent state event o).state
  unfolding end_agent
  end_agent-IsNested none = nested
  end_agent-IsNested (some key) =
      let models_of = contains (Dict.values state.open_models) key in
      let tools_of = parents_open_tool state key in
      branch-keeps IsNested
        (not (contains state.open_agents key)
          || (not (in_open_phase state event) || (models_of || tools_of)))
        state _ (λ _. nested)
        (λ right.
          let no_model : models_of ≡ false = ground arith in
          let no_tool : tools_of ≡ false = ground arith in
          let placed : is_some state.open_phase ≡ true = ground arith in
          record {
            models = λ k.
                shrunk _ key _ state (model_free state key k _ refl no_model) (nested.models k);
            tools =
                λ k. shrunk _ key _ state (tool_free state key k _ refl no_tool) (nested.tools k);
            agents = let is_placed = placed in ground arith;
            phases = nested.phases;
            attempts = nested.attempts;
          })

  pub start_model-IsNested : (o : Option ℕ) → IsNested (start_model state event o).state
  start_model-IsNested none = nested
  start_model-IsNested (some key) =
      branch-keeps IsNested _ state _ (λ _. nested)
        (λ right. record {
          models = λ k.
              let before = nested.models k in
              let put = get-put state.open_models key k (id_or_empty event.actor_name) in
              ground arith;
          tools = nested.tools;
          agents = nested.agents;
          phases = nested.phases;
          attempts = nested.attempts;
        })

  pub end_model-IsNested : (o : Option ℕ) → IsNested (end_model state event o).state
  end_model-IsNested none = nested
  end_model-IsNested (some key) =
      branch-keeps IsNested _ state _ (λ _. nested)
        (λ right. record {
          models = λ k.
              let before = nested.models k in
              let popped = get-pop state.open_models key k in ground arith;
          tools = nested.tools;
          agents = nested.agents;
          phases = nested.phases;
          attempts = nested.attempts;
        })
