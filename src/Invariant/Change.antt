-- ===== src/Invariant/Change.antt =====
-- A change of the row of one delivery, with or without a change of its event's status.
use webhook_engine.Base.{
  ℕ, ◌≡◌, refl, sym, ◌≢◌, ◌<◌, Bool, true, List, [], ◌∷◌, subst, patch, All, arith, if◌then◌else◌,
  inl, inr, Bool-cases,
}
use native.Mathlib.Decide.{ℕ_discrete}
use webhook_engine.Schema.{DeliveryStatus, EventStatus, no_subscribers, Delivery, WebhookEvent, Db}
use webhook_engine.Dispatcher.Policy.{is_unfinished}
use webhook_engine.Dispatcher.Repository.{event_has_id, set_event_status}
use webhook_engine.Invariant.{AgreesWith, Consistent}
use webhook_engine.Invariant.Summary.{
  Agrees, Agrees-congr, some_of, some_of-patch_ne, HasDistinctIds, BelongsTo, anything,
}

module _ (p : Delivery → Bool) (f : Delivery → Delivery)
    (same_id : (d : Delivery) → (f d).id ≡ d.id) where
  All-ne-patch :
      (id : ℕ) (ds : List Delivery) → All (λ x. x.id ≢ id) ds → All (λ x. x.id ≢ id) (patch p f ds)
  All-ne-patch id [] h = tt
  All-ne-patch id (d ∷ ds) h = ground (arith, same_id d, All-ne-patch id ds h.1)

  pub HasDistinctIds-patch :
      (ds : List Delivery) → HasDistinctIds ds → HasDistinctIds (patch p f ds)
  HasDistinctIds-patch [] h = tt
  HasDistinctIds-patch (d ∷ ds) (h, hs) =
      let kept : d.id ≡ (if p d then f d else d).id = ground (arith, same_id d) in
      (
        subst (λ (n : ℕ). All (λ x. x.id ≢ n) (patch p f ds)) kept (All-ne-patch d.id ds h),
        HasDistinctIds-patch ds hs,
      )

  pub fresh-patch :
      (n : ℕ) (ds : List Delivery) → All (λ x. x.id < n) ds → All (λ x. x.id < n) (patch p f ds)
  fresh-patch n [] h = tt
  fresh-patch n (d ∷ ds) h = ground (arith, same_id d, fresh-patch n ds h.1)

-- Outside the event nothing changes; the event gets a status that agrees with the new rows.
pub agree_set :
    (ds ds' : List Delivery) (event_id now : ℕ) (st : EventStatus) (es : List WebhookEvent)
    → ((other : ℕ)
        → other ≢ event_id
        → (q : DeliveryStatus → Bool) → some_of q other ds' ≡ some_of q other ds)
    → Agrees st event_id ds'
    → All (AgreesWith ds) es
    → All (AgreesWith ds') (patch (event_has_id event_id) (set_event_status now st) es)
agree_set ds ds' event_id now st [] same new h = tt
agree_set ds ds' event_id now st (e ∷ es) same new (h, hs) =
    elim (Bool-cases (event_has_id event_id e)) [
      | inl hit ↦
          let key : event_id ≡ e.id = ground arith in
          (
            rw hit (subst (λ (n : ℕ). Agrees st n ds') key new),
            agree_set ds ds' event_id now st es same new hs,
          )
      | inr miss ↦
          let other : e.id ≢ event_id = ground arith in
          (
            rw miss (Agrees-congr e.status e.id ds ds' (same e.id other) h),
            agree_set ds ds' event_id now st es same new hs,
          )
    ]

some_of-anything :
    (q : DeliveryStatus → Bool) (event_id : ℕ) (ds : List Delivery)
    → some_of q event_id ds ≡ true
    → some_of anything event_id ds ≡ true
some_of-anything q event_id [] h = cc
some_of-anything q event_id (d ∷ ds) h = ground (arith, some_of-anything q event_id ds)

-- An event with an unfinished delivery before and after needs no new status.
Agrees-unfinished :
    (st : EventStatus) (event_id : ℕ) (ds ds' : List Delivery)
    → some_of is_unfinished event_id ds ≡ true
    → some_of is_unfinished event_id ds' ≡ true
    → Agrees st event_id ds
    → Agrees st event_id ds'
Agrees-unfinished EventStatus.pending event_id ds ds' h h' a = h'
Agrees-unfinished no_subscribers event_id ds ds' h h' a =
    ground (arith, some_of-anything is_unfinished event_id ds)
Agrees-unfinished _ event_id ds ds' h h' a = ground arith

pub agree_keep :
    (ds ds' : List Delivery) (event_id : ℕ) (es : List WebhookEvent)
    → ((other : ℕ)
        → other ≢ event_id
        → (q : DeliveryStatus → Bool) → some_of q other ds' ≡ some_of q other ds)
    → some_of is_unfinished event_id ds ≡ true
    → some_of is_unfinished event_id ds' ≡ true
    → All (AgreesWith ds) es
    → All (AgreesWith ds') es
agree_keep ds ds' event_id [] same before now h = tt
agree_keep ds ds' event_id (e ∷ es) same before now (h, hs) = (
  elim (ℕ_discrete e.id event_id) [
    | yes key ↦
        Agrees-unfinished e.status e.id ds ds'
          (subst (λ (n : ℕ). some_of is_unfinished n ds ≡ true) (sym key) before)
          (subst (λ (n : ℕ). some_of is_unfinished n ds' ≡ true) (sym key) now) h
    | no other ↦ Agrees-congr e.status e.id ds ds' (same e.id other) h
  ],
  agree_keep ds ds' event_id es same before now hs,
)

numbered-patch :
    (event_id now : ℕ) (st : EventStatus) (n : ℕ) (es : List WebhookEvent)
    → All (λ e. e.id < n) es
    → All (λ e. e.id < n) (patch (event_has_id event_id) (set_event_status now st) es)
numbered-patch event_id now st n [] h = tt
numbered-patch event_id now st n (e ∷ es) h =
    ground (arith, numbered-patch event_id now st n es h.1)

-- What a change of a row leaves alone.
pub record KeepsKeys (f : Delivery → Delivery) : Type 0 where
  pub id : (d : Delivery) → (f d).id ≡ d.id
  pub event_id : (d : Delivery) → (f d).event_id ≡ d.event_id

module _ (p : Delivery → Bool) (f : Delivery → Delivery)
    (same : (d : Delivery) → (f d).event_id ≡ d.event_id) where
  known-patch :
      (n : ℕ) (ds : List Delivery)
      → All (λ x. x.event_id < n) ds
      → All (λ x. x.event_id < n) (patch p f ds)
  known-patch n [] h = tt
  known-patch n (d ∷ ds) h = ground (arith, same d, known-patch n ds h.1)

module _ (p : Delivery → Bool) (f : Delivery → Delivery) (id event_id : ℕ)
    (keyed : (d : Delivery) → p d ≡ true → d.id ≡ id) (k : KeepsKeys f) (s : Db) (c : Consistent s)
    (b : All (BelongsTo id event_id) s.deliveries) where
  -- One delivery changes, and its event gets a status that agrees.
  pub change_and_set :
      (now : ℕ) (st : EventStatus)
      → Agrees st event_id (patch p f s.deliveries)
      → Consistent (record s {
        events = patch (event_has_id event_id) (set_event_status now st) s.events;
        deliveries = patch p f s.deliveries;
      })
  change_and_set now st a = record {
    distinct = HasDistinctIds-patch p f k.id s.deliveries c.distinct;
    fresh = fresh-patch p f k.id s.next_id s.deliveries c.fresh;
    known = known-patch p f k.event_id s.next_id s.deliveries c.known;
    numbered = numbered-patch event_id now st s.next_id s.events c.numbered;
    agree =
        agree_set s.deliveries (patch p f s.deliveries) event_id now st s.events
          (λ other ne q.
            some_of-patch_ne q id event_id p f keyed k.event_id other s.deliveries ne b)
          a c.agree;
  }

  -- One delivery changes, and its event has an unfinished delivery before and after.
  pub change_and_keep :
      some_of is_unfinished event_id s.deliveries ≡ true
      → some_of is_unfinished event_id (patch p f s.deliveries) ≡ true
      → Consistent (record s { deliveries = patch p f s.deliveries })
  change_and_keep before after = record {
    distinct = HasDistinctIds-patch p f k.id s.deliveries c.distinct;
    fresh = fresh-patch p f k.id s.next_id s.deliveries c.fresh;
    known = known-patch p f k.event_id s.next_id s.deliveries c.known;
    numbered = c.numbered;
    agree =
        agree_keep s.deliveries (patch p f s.deliveries) event_id s.events
          (λ other ne q.
            some_of-patch_ne q id event_id p f keyed k.event_id other s.deliveries ne b)
          before after c.agree;
  }

pub BelongsTo-patch :
    (p : Delivery → Bool) (f : Delivery → Delivery) (id event_id : ℕ) (ds : List Delivery)
    → KeepsKeys f
    → All (BelongsTo id event_id) ds
    → All (BelongsTo id event_id) (patch p f ds)
BelongsTo-patch p f id event_id [] k b = tt
BelongsTo-patch p f id event_id (d ∷ ds) k b =
    ground (arith, k.id d, k.event_id d, BelongsTo-patch p f id event_id ds k b.1)

-- An event with an unfinished delivery may be set to PROCESSING.
pub set_processing :
    (s : Db) (event_id now : ℕ)
    → Consistent s
    → some_of is_unfinished event_id s.deliveries ≡ true
    → Consistent (record s {
      events = patch (event_has_id event_id) (set_event_status now EventStatus.processing) s.events;
    })
set_processing s event_id now c h = record {
  distinct = c.distinct;
  fresh = c.fresh;
  known = c.known;
  numbered = numbered-patch event_id now EventStatus.processing s.next_id s.events c.numbered;
  agree =
      agree_set s.deliveries s.deliveries event_id now EventStatus.processing s.events
        (λ other ne q. refl) h c.agree;
}
