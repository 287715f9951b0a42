-- ===== src/Schema/Table.antt =====
-- The calls of the database client on one table, as steps on the database.
use webhook_engine.Base.{ℕ, suc, Bool, Option, none, some, List, [], ◌∷◌, M, ok, err, p2002, p2025}
use webhook_engine.Prisma.{Prisma}
use webhook_engine.Schema.{
  Db, Tenant, Endpoint, EndpointSubscription, WebhookEvent, Delivery, DeliveryOutbox,
}

-- `prisma.delivery`, `prisma.endpoint`, …
pub record Table (A : Type 0) : Type 0 where
  pub rows : Db → List A
  pub store : List A → Db → Db

abbrev pub tenant : Table Tenant
tenant = record { rows = λ s. s.tenants; store = λ xs s. record s { tenants = xs } }

abbrev pub endpoint : Table Endpoint
endpoint = record { rows = λ s. s.endpoints; store = λ xs s. record s { endpoints = xs } }

abbrev pub endpoint_subscription : Table EndpointSubscription
endpoint_subscription = record {
  rows = λ s. s.subscriptions;
  store = λ xs s. record s { subscriptions = xs };
}

abbrev pub webhook_event : Table WebhookEvent
webhook_event = record { rows = λ s. s.events; store = λ xs s. record s { events = xs } }

abbrev pub delivery : Table Delivery
delivery = record { rows = λ s. s.deliveries; store = λ xs s. record s { deliveries = xs } }

abbrev pub delivery_outbox : Table DeliveryOutbox
delivery_outbox = record { rows = λ s. s.outbox; store = λ xs s. record s { outbox = xs } }

-- `@default(uuid())` and `randomUUID()`: an identifier that was never used before.
abbrev pub fresh_id : M Db ℕ
fresh_id s = (ok s.next_id, record s { next_id = suc s.next_id })

module _ (db : Prisma) {A : Type 0} (t : Table A) where
  abbrev pub find_first : (A → Bool) → M Db (Option A)
  find_first p s = (ok (db.find_first p (t.rows s)), s)

  abbrev pub find_many : (A → Bool) → M Db (List A)
  find_many p s = (ok (db.find_many p (t.rows s)), s)

  abbrev pub update_many : (A → Bool) → (A → A) → M Db ℕ
  update_many p f s = let r = db.update_many p f (t.rows s) in (ok (r.1), t.store (r.0) s)

  abbrev pub create_many : List A → M Db (Unit {0})
  create_many new s = (ok tt, t.store (db.create_many new (t.rows s)) s)

  abbrev pub delete_many : (A → Bool) → M Db (Unit {0})
  delete_many p s = (ok tt, t.store (db.delete_many p (t.rows s)) s)

  -- `update` is for one row, by its key: it throws P2025 if there is none.
  abbrev pub update : (A → Bool) → (A → A) → M Db A
  update p f s = elim (db.find_first p (t.rows s)) [
    | none ↦ (err p2025, s)
    | some a ↦ (ok (f a), t.store ((db.update_many p f (t.rows s)).0) s)
  ]

  -- `create` under a unique constraint: it throws P2002 if a row clashes with the new one.
  abbrev pub create : (A → Bool) → A → M Db A
  create clash a s = elim (db.find_first clash (t.rows s)) [
    | some _ ↦ (err p2002, s)
    | none ↦ (ok a, t.store (db.create_many (a ∷ []) (t.rows s)) s)
  ]
