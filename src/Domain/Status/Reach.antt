-- ===== src/Domain/Status/Reach.antt =====
-- What the transition tables allow over any number of steps.
use diagops.Base.{true, false, ◌⊎◌, ◌≢◌, inl, inr, ◌≡◌, ◌↔◌, refl, arith}
use diagops.Domain.Status.{
  RunStatus, created, running, cancelling, interrupted, completed, failed, cancelled,
  allowed_transitions, leads_to, is_terminal,
}

-- Zero or more allowed transitions.
pub data Reach (a : RunStatus) : RunStatus → Type 0 where
  here : Reach a a
  step : {b c : RunStatus} → Reach a b → allowed_transitions b c ≡ true → Reach a c

pub leads_to_refl : (a : RunStatus) → leads_to a a ≡ true
leads_to_refl a = ground arith

pub leads_to_trans :
    (a b c : RunStatus) → leads_to a b ≡ true → leads_to b c ≡ true → leads_to a c ≡ true
leads_to_trans a b c h k = ground arith

pub leads_to_of_allowed : (a b : RunStatus) → allowed_transitions a b ≡ true → leads_to a b ≡ true
leads_to_of_allowed a b h = ground arith

leads_to_of_Reach : {a b : RunStatus} → Reach a b → leads_to a b ≡ true
leads_to_of_Reach {a} here = leads_to_refl a
leads_to_of_Reach {a} (step {b} {c} r ok) =
    leads_to_trans a b c (leads_to_of_Reach r) (leads_to_of_allowed b c ok)

one : {a b : RunStatus} → allowed_transitions a b ≡ true → Reach a b
one ok = step here ok

from_running : (b : RunStatus) → leads_to running b ≡ true → Reach running b
from_running created h = cc
from_running running h = here
from_running cancelling h = one refl
from_running interrupted h = one refl
from_running completed h = one refl
from_running failed h = one refl
from_running cancelled h = step (one {b = cancelling} refl) refl

append : {a b c : RunStatus} → Reach a b → Reach b c → Reach a c
append r here = r
append r (step q ok) = step (append r q) ok

via_running : {a b : RunStatus} → Reach a running → leads_to running b ≡ true → Reach a b
via_running {a} {b} r h = append r (from_running b h)

Reach-of_leads_to : (a b : RunStatus) → leads_to a b ≡ true → Reach a b
Reach-of_leads_to created created h = here
Reach-of_leads_to created b h = via_running (one refl) (ground arith)
Reach-of_leads_to running b h = from_running b h
Reach-of_leads_to interrupted created h = cc
Reach-of_leads_to interrupted b h = via_running (one refl) (ground arith)
Reach-of_leads_to cancelling created h = cc
Reach-of_leads_to cancelling b h =
    via_running (step (one {b = interrupted} refl) refl) (ground arith)
Reach-of_leads_to completed completed h = here
Reach-of_leads_to completed _ h = cc
Reach-of_leads_to failed failed h = here
Reach-of_leads_to failed _ h = cc
Reach-of_leads_to cancelled cancelled h = here
Reach-of_leads_to cancelled _ h = cc

-- A status can come to be another exactly where some chain of allowed transitions leads there.
pub Reach-iff : (a b : RunStatus) → Reach a b ↔ (leads_to a b ≡ true)
Reach-iff a b = (leads_to_of_Reach, Reach-of_leads_to a b)

abbrev pub CanEnd : RunStatus → Type 0
CanEnd a = (b : RunStatus) × (is_terminal b ≡ true) × Reach a b

can_end : (a : RunStatus) → CanEnd a
can_end created = (cancelled, refl, step here refl)
can_end running = (completed, refl, step here refl)
can_end cancelling = (cancelled, refl, step here refl)
can_end interrupted = (completed, refl, step (one {b = running} refl) refl)
can_end completed = (completed, refl, here)
can_end failed = (failed, refl, here)
can_end cancelled = (cancelled, refl, here)

terminal_stays : {a b : RunStatus} → Reach a b → (is_terminal a ≡ false) ⊎ (b ≡ a)
terminal_stays {a} {b} r = ground (arith, leads_to_of_Reach r)

created_only_first : (a b : RunStatus) → Reach a b → (b ≢ created) ⊎ (a ≡ created)
created_only_first created b r = inr refl
created_only_first a b r = inl (λ e. ground (arith, leads_to_of_Reach r))

-- Where allowed transitions lead from a status to another, a terminal status has led to itself only,
-- `created` was led to from itself only, and from the status reached some further allowed
-- transitions, or none, end in a terminal one.
pub lifecycle :
    (a b : RunStatus)
    → Reach a b
    → ((is_terminal a ≡ false) ⊎ (b ≡ a)) × ((b ≢ created) ⊎ (a ≡ created)) × CanEnd b
lifecycle a b r = (terminal_stays r, created_only_first a b r, can_end b)
