-- ===== src/Dispatcher/Policy.antt =====
-- src/dispatcher/application/services/event-status.policy.ts
use webhook_engine.Base.{
  ◌≡◌, ◌↔◌, ◌⊎◌, Bool, true, false, if◌then◌else◌, List, [], ◌∷◌, any, All, arith,
}
use webhook_engine.Schema.{DeliveryStatus, success, dlq, cancelled, EventStatus, done}

-- `['PENDING', 'PROCESSING', 'FAILED'].includes(status)`
abbrev pub is_unfinished : DeliveryStatus → Bool
is_unfinished DeliveryStatus.pending = true
is_unfinished DeliveryStatus.processing = true
is_unfinished DeliveryStatus.failed = true
is_unfinished _ = false

-- `['DLQ', 'CANCELLED'].includes(status)`
abbrev pub is_terminal_failure : DeliveryStatus → Bool
is_terminal_failure dlq = true
is_terminal_failure cancelled = true
is_terminal_failure _ = false

unfoldable pub calculate_event_status : List DeliveryStatus → EventStatus
calculate_event_status statuses =
    if any is_unfinished statuses
    then EventStatus.processing
    else if any is_terminal_failure statuses
    then EventStatus.failed
    else done

module _ {ℓ} {A : Type ℓ} where
  abbrev pub Any : (A → Type 0) → List A → Type 0
  Any P [] = ⊥
  Any P (x ∷ xs) = P x ⊎ Any P xs

abbrev pub IsUnfinished : DeliveryStatus → Type 0
IsUnfinished st =
    (st ≡ DeliveryStatus.pending) ⊎ (st ≡ DeliveryStatus.processing) ⊎ (st ≡ DeliveryStatus.failed)

abbrev pub IsFailure : DeliveryStatus → Type 0
IsFailure st = (st ≡ dlq) ⊎ (st ≡ cancelled)

is_unfinished_iff : (st : DeliveryStatus) → (is_unfinished st ≡ true) ↔ IsUnfinished st
is_unfinished_iff st = ground arith

is_terminal_failure_iff : (st : DeliveryStatus) → (is_terminal_failure st ≡ true) ↔ IsFailure st
is_terminal_failure_iff st = ground arith

any-eq-true_iff :
    (p : DeliveryStatus → Bool) (P : DeliveryStatus → Type 0)
    → ((st : DeliveryStatus) → (p st ≡ true) ↔ P st)
    → (sts : List DeliveryStatus) → (any p sts ≡ true) ↔ Any P sts
any-eq-true_iff p P e [] = (λ h. cc, λ h. absurd h)
any-eq-true_iff p P e (st ∷ sts) = ground (arith, e st, any-eq-true_iff p P e sts)

All-success_iff :
    (sts : List DeliveryStatus)
    → All (λ st. st ≡ success) sts
      ↔ ((any is_unfinished sts ≡ false) × (any is_terminal_failure sts ≡ false))
All-success_iff [] = ground arith
All-success_iff (st ∷ sts) = ground (arith, All-success_iff sts)

-- An event is PROCESSING exactly while some delivery is unfinished, DONE exactly when all
-- deliveries succeeded, and FAILED exactly when none is unfinished and some is in the dead letter
-- queue or cancelled.
pub calculate_event_status_cases :
    (sts : List DeliveryStatus)
    → ((calculate_event_status sts ≡ EventStatus.processing) ↔ Any IsUnfinished sts)
      × ((calculate_event_status sts ≡ done) ↔ All (λ st. st ≡ success) sts)
      × ((calculate_event_status sts ≡ EventStatus.failed)
          ↔ ((¬ Any IsUnfinished sts) × Any IsFailure sts))
unfolding calculate_event_status
calculate_event_status_cases sts = ground (
  arith,
  any-eq-true_iff is_unfinished IsUnfinished is_unfinished_iff sts,
  any-eq-true_iff is_terminal_failure IsFailure is_terminal_failure_iff sts,
  All-success_iff sts,
)
