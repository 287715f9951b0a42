-- ===== src/Deliveries/Replay.antt =====
-- Who may replay a delivery, and what a replay does: `replay` of
-- src/deliveries/infrastructure/persistence/prisma-deliveries.repository.ts and
-- src/deliveries/application/use-cases/replay-delivery.use-case.ts
use webhook_engine.Base.{
  ℕ, ◌==◌, ◌≡◌, refl, ◌≢◌, inl, inr, Bool, true, false, ◌&&◌, Option, some, none, List, [], ◌∷◌,
  ◌++◌, find?, All, ok, err, http_exception, suc, patch, subst, find?-holds, arith, Bool-cases,
}
use webhook_engine.Prisma.{Prisma, IsLawful, reference, lawful-eq}
use webhook_engine.Schema.{EventStatus, Delivery, WebhookEvent, Db, is_success}
use webhook_engine.Dispatcher.Repository.{
  is_claimed_by, set_event_status, has_id, event_has_id, outbox_row,
}
use webhook_engine.Dispatcher.Executor.Outcome.{find?-patch}
use webhook_engine.Deliveries.{
  is_delivery_of, find_delivery, reset, reset_for_replay, replay_found, replay_delivery,
  get_delivery,
}

find?-none-of :
    {A : Type 0} (p : A → Bool) (xs : List A) → All (λ x. p x ≡ false) xs → find? p xs ≡ none
find?-none-of p [] h = refl
find?-none-of p (x ∷ xs) h = rw h.0 (find?-none-of p xs h.1)

-- The delivery's event is not one of the tenant's.
abbrev pub IsForeign : ℕ → Db → Delivery → Type 0
IsForeign tenant_id s d =
    All (λ (e : WebhookEvent). e.id ≡ d.event_id → e.tenant_id ≢ tenant_id) s.events

foreign_event :
    (event_id tenant_id : ℕ) (es : List WebhookEvent)
    → All (λ (e : WebhookEvent). e.id ≡ event_id → e.tenant_id ≢ tenant_id) es
    → find? (λ (e : WebhookEvent). e.id == event_id && e.tenant_id == tenant_id) es ≡ none
foreign_event event_id tenant_id [] h = refl
foreign_event event_id tenant_id (e ∷ es) h =
    ground (arith, h.0, foreign_event event_id tenant_id es h.1)

foreign_delivery :
    (s : Db) (id tenant_id : ℕ) (ds : List Delivery)
    → All (λ (d : Delivery). d.id ≡ id → IsForeign tenant_id s d) ds
    → find? (is_delivery_of reference s id tenant_id) ds ≡ none
foreign_delivery s id tenant_id [] h = refl
foreign_delivery s id tenant_id (d ∷ ds) (h, hs) = elim (Bool-cases (has_id id d)) [
  | inl hit ↦
      let key : d.id ≡ id = ground arith in
      rw (hit, foreign_event d.event_id tenant_id s.events (h key))
        (foreign_delivery s id tenant_id ds hs)
  | inr miss ↦ rw miss (foreign_delivery s id tenant_id ds hs)
]

-- A tenant neither sees nor replays a delivery of an event that is not its own: both are answered
-- with 404, as for a delivery that does not exist, and nothing changes.
pub replay_foreign :
    (db : Prisma)
    → IsLawful db
    → (now id tenant_id : ℕ) (s : Db)
    → All (λ (d : Delivery). d.id ≡ id → IsForeign tenant_id s d) s.deliveries
    → (replay_delivery db now id tenant_id s
        ≡ (err (http_exception 404 "Delivery with this ID not found"), s))
      × (get_delivery db id tenant_id s
          ≡ (err (http_exception 404 "Delivery with this ID not found"), s))
unfolding replay_delivery find_delivery replay_found get_delivery
replay_foreign db law now id tenant_id s h =
    let none' = foreign_delivery s id tenant_id s.deliveries h in
    (rw (lawful-eq db law, none'), rw (lawful-eq db law, none'))

find_delivery-eq :
    (id tenant_id : ℕ) (s : Db) (o : Option Delivery)
    → find_delivery reference id tenant_id s ≡ (ok o, s)
    → find? (is_delivery_of reference s id tenant_id) s.deliveries ≡ o
unfolding find_delivery
find_delivery-eq id tenant_id s o h = cc

reference_replay_resets :
    (now id tenant_id : ℕ) (s : Db) (d : Delivery) (e : WebhookEvent)
    → find_delivery reference id tenant_id s ≡ (ok (some d), s)
    → find? (has_id id) s.deliveries ≡ some d
    → find? (event_has_id d.event_id) s.events ≡ some e
    → is_success d.status ≡ false
    → (t : Db) × (replay_delivery reference now id tenant_id s ≡ (ok (reset now d), t))
      × (find? (has_id id) t.deliveries ≡ some (reset now d))
      × (is_claimed_by id 1 (reset now d) ≡ true)
      × (t.outbox ≡ s.outbox ++ outbox_row now s.next_id id now 1 ∷ [])
unfolding replay_delivery replay_found reset_for_replay
reference_replay_resets now id tenant_id s d e owned found here open' = (
  record s {
    events = patch (event_has_id d.event_id) (set_event_status now EventStatus.processing) s.events;
    deliveries = patch (has_id id) (reset now) s.deliveries;
    outbox = s.outbox ++ outbox_row now s.next_id id now 1 ∷ [];
    next_id = suc s.next_id;
  },
  rw (find_delivery-eq id tenant_id s (some d) owned, open', found, here),
  find?-patch id (reset now) s.deliveries (λ x. refl) found,
  ground (arith, find?-holds (has_id id) s.deliveries found),
  refl,
)

-- Replaying a tenant's own delivery that is not in SUCCESS, whatever its status is, succeeds and makes
-- it as new: it is stored as PENDING without attempts, so that a job for the first attempt can claim
-- it, and the outbox has one row more, for that attempt, due now.
pub replay_resets :
    (db : Prisma)
    → IsLawful db
    → (now id tenant_id : ℕ) (s : Db) (d : Delivery) (e : WebhookEvent)
    → find_delivery db id tenant_id s ≡ (ok (some d), s)
    → find? (has_id id) s.deliveries ≡ some d
    → find? (event_has_id d.event_id) s.events ≡ some e
    → is_success d.status ≡ false
    → (t : Db) × (replay_delivery db now id tenant_id s ≡ (ok (reset now d), t))
      × (find? (has_id id) t.deliveries ≡ some (reset now d))
      × (is_claimed_by id 1 (reset now d) ≡ true)
      × (t.outbox ≡ s.outbox ++ outbox_row now s.next_id id now 1 ∷ [])
replay_resets db law now id tenant_id s d e owned found here open' = rw (lawful-eq db law) (
    reference_replay_resets now id tenant_id s d e
      (subst (λ (x : Prisma). find_delivery x id tenant_id s ≡ (ok (some d), s)) (lawful-eq db law)
        owned)
      found here open')
