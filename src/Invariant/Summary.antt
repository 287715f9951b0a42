-- ===== src/Invariant/Summary.antt =====
-- What the status of an event has to say of its deliveries, and what a change of one delivery does
-- to that.
use webhook_engine.Base.{
  ℕ, ◌==◌, ◌≡◌, refl, ◌∙◌, ◌≢◌, Bool, true, false, ◌&&◌, some, List, [], ◌∷◌, map, any, filter,
  find?, subst, Bool-cases, inl, inr, patch, count, All, arith,
}
use webhook_engine.Schema.{DeliveryStatus, EventStatus, done, no_subscribers, Delivery}
use webhook_engine.Dispatcher.Policy.{is_unfinished, is_terminal_failure, calculate_event_status}
use webhook_engine.Dispatcher.Repository.{has_id}

abbrev pub anything : DeliveryStatus → Bool
anything _ = true

-- Some delivery of the event has a status that passes the test.
abbrev pub some_of : (DeliveryStatus → Bool) → ℕ → List Delivery → Bool
some_of q event_id = any (λ d. (d.event_id == event_id) && q d.status)

abbrev pub Agrees : EventStatus → ℕ → List Delivery → Type 0
Agrees EventStatus.pending event_id ds = some_of is_unfinished event_id ds ≡ true
Agrees EventStatus.processing event_id ds = some_of is_unfinished event_id ds ≡ true
Agrees done event_id ds =
    (some_of is_unfinished event_id ds ≡ false) × (some_of is_terminal_failure event_id ds ≡ false)
Agrees EventStatus.failed event_id ds =
    (some_of is_unfinished event_id ds ≡ false) × (some_of is_terminal_failure event_id ds ≡ true)
Agrees no_subscribers event_id ds = some_of anything event_id ds ≡ false

abbrev pub HasDistinctIds : List Delivery → Type 0
HasDistinctIds [] = Unit
HasDistinctIds (d ∷ ds) = All (λ x. x.id ≢ d.id) ds × HasDistinctIds ds

-- Every row with the key belongs to the event.
abbrev pub BelongsTo : ℕ → ℕ → Delivery → Type 0
BelongsTo id event_id d = d.id ≡ id → d.event_id ≡ event_id

BelongsTo-of_ne :
    (id event_id : ℕ) (ds : List Delivery)
    → All (λ x. x.id ≢ id) ds
    → All (BelongsTo id event_id) ds
BelongsTo-of_ne id event_id [] h = tt
BelongsTo-of_ne id event_id (d ∷ ds) (h, hs) =
    (λ e. absurd (h e), BelongsTo-of_ne id event_id ds hs)

pub find?-BelongsTo :
    (id : ℕ) (ds : List Delivery) {d : Delivery}
    → HasDistinctIds ds
    → find? (has_id id) ds ≡ some d
    → All (BelongsTo id d.event_id) ds
find?-BelongsTo id [] h e = tt
find?-BelongsTo id (x ∷ ds) {d} (h, hs) e = elim (Bool-cases (has_id id x)) [
  | inl hit ↦
      let same : x.id ≡ id = ground arith in
      (
        λ _. ground arith,
        BelongsTo-of_ne id d.event_id ds (subst (λ (n : ℕ). All (λ y. y.id ≢ n) ds) same h),
      )
  | inr miss ↦ (λ same. absurd (ground arith), find?-BelongsTo id ds {d = d} hs (ground arith))
]

module _ (q : DeliveryStatus → Bool) (id event_id : ℕ) (p : Delivery → Bool)
    (f : Delivery → Delivery) (keyed : (d : Delivery) → p d ≡ true → d.id ≡ id)
    (kept : (d : Delivery) → (f d).event_id ≡ d.event_id) where
  -- A change of one delivery does not show in the other events.
  pub some_of-patch_ne :
      (other : ℕ) (ds : List Delivery)
      → other ≢ event_id
      → All (BelongsTo id event_id) ds
      → some_of q other (patch p f ds) ≡ some_of q other ds
  some_of-patch_ne other [] h b = refl
  some_of-patch_ne other (d ∷ ds) h b =
      ground (arith, keyed d, kept d, some_of-patch_ne other ds h b.1)

  pub some_of-patch_self :
      (ds : List Delivery)
      → ((d : Delivery) → q (f d).status ≡ true)
      → count p ds ≢ 0
      → All (BelongsTo id event_id) ds
      → some_of q event_id (patch p f ds) ≡ true
  some_of-patch_self [] s h b = absurd (h refl)
  some_of-patch_self (d ∷ ds) s h b = ground (arith, keyed d, kept d, s d, some_of-patch_self ds s)

-- `calculateEventStatus` on the event's deliveries gives a status that agrees with them.
any-map-filter :
    (q : DeliveryStatus → Bool) (event_id : ℕ) (ds : List Delivery)
    → any q (map (λ (d : Delivery). d.status) (filter (λ d. d.event_id == event_id) ds))
      ≡ some_of q event_id ds
any-map-filter q event_id [] = refl
any-map-filter q event_id (d ∷ ds) = ground (arith, any-map-filter q event_id ds)

pub calculate_event_status-Agrees :
    (event_id : ℕ) (ds : List Delivery)
    → Agrees
        (calculate_event_status
          (map (λ (d : Delivery). d.status) (filter (λ d. d.event_id == event_id) ds)))
        event_id
        ds
unfolding calculate_event_status
calculate_event_status-Agrees event_id ds = ground (
  arith,
  any-map-filter is_unfinished event_id ds,
  any-map-filter is_terminal_failure event_id ds,
)

-- Agreement rests on three tests.
pub Agrees-congr :
    (st : EventStatus) (event_id : ℕ) (ds ds' : List Delivery)
    → ((q : DeliveryStatus → Bool) → some_of q event_id ds' ≡ some_of q event_id ds)
    → Agrees st event_id ds
    → Agrees st event_id ds'
Agrees-congr EventStatus.pending event_id ds ds' e a = e is_unfinished ∙ a
Agrees-congr EventStatus.processing event_id ds ds' e a = e is_unfinished ∙ a
Agrees-congr done event_id ds ds' e a = (e is_unfinished ∙ a.0, e is_terminal_failure ∙ a.1)
Agrees-congr EventStatus.failed event_id ds ds' e a =
    (e is_unfinished ∙ a.0, e is_terminal_failure ∙ a.1)
Agrees-congr no_subscribers event_id ds ds' e a = e anything ∙ a

-- A row that passes a test shows in the event that it belongs to.
pub some_of-find? :
    (q : DeliveryStatus → Bool) (p : Delivery → Bool) (ds : List Delivery) (d : Delivery)
    → find? p ds ≡ some d
    → q d.status ≡ true
    → some_of q d.event_id ds ≡ true
some_of-find? q p [] d h hq = cc
some_of-find? q p (x ∷ ds) d h hq = ground (arith, some_of-find? q p ds d)

pub some_of-count :
    (q : DeliveryStatus → Bool) (id event_id : ℕ) (p : Delivery → Bool) (ds : List Delivery)
    → ((d : Delivery) → p d ≡ true → d.id ≡ id)
    → ((d : Delivery) → p d ≡ true → q d.status ≡ true)
    → count p ds ≢ 0
    → All (BelongsTo id event_id) ds
    → some_of q event_id ds ≡ true
some_of-count q id event_id p [] keyed has h b = absurd (h refl)
some_of-count q id event_id p (d ∷ ds) keyed has h b =
    ground (arith, keyed d, has d, some_of-count q id event_id p ds keyed has)

pub find?-ne-none :
    (id : ℕ) (p : Delivery → Bool) (ds : List Delivery)
    → ((d : Delivery) → p d ≡ true → d.id ≡ id)
    → count p ds ≢ 0
    → (d : Delivery) × (find? (has_id id) ds ≡ some d)
find?-ne-none id p [] keyed h = absurd (h refl)
find?-ne-none id p (d ∷ ds) keyed h = elim (Bool-cases (has_id id d)) [
  | inl hit ↦ (d, rw hit)
  | inr miss ↦
      let (found, e) = find?-ne-none id p ds keyed (ground (arith, keyed d)) in (found, rw miss e)
]
