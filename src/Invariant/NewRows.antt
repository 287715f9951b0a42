-- ===== src/Invariant/NewRows.antt =====
-- The rows that accepting an event adds, and what they change for the statuses of events.
use webhook_engine.Base.{
  ℕ, suc, ◌+◌, ◌≡◌, refl, ◌≢◌, ◌≤◌, ◌<◌, Bool, false, List, [], ◌∷◌, ◌++◌, length, any-append, All,
  All-append, arith, ◌∙◌, ok,
}
use webhook_engine.Schema.{DeliveryStatus, Endpoint, Delivery, DeliveryOutbox, WebhookEvent, Db}
use webhook_engine.Dispatcher.Repository.{outbox_row}
use webhook_engine.Events.Ingest.{new_delivery, deliveries_data, outbox_data}
use webhook_engine.Invariant.{AgreesWith}
use webhook_engine.Invariant.Summary.{some_of, HasDistinctIds, Agrees-congr}

-- The rows that `deliveriesData` holds when the next identifier is `n`.
unfoldable pub delivery_rows : ℕ → ℕ → ℕ → List Endpoint → List Delivery
delivery_rows now event_id n [] = []
delivery_rows now event_id n (e ∷ es) =
    new_delivery now event_id e.id n ∷ delivery_rows now event_id (suc n) es

abbrev pub advanced : Db → ℕ → Db
advanced s k = record s { next_id = s.next_id + k }

pub deliveries_data-eq :
    (now event_id : ℕ) (es : List Endpoint) (s : Db)
    → deliveries_data now event_id es s
      ≡ (ok (delivery_rows now event_id s.next_id es), advanced s (length es))
unfolding deliveries_data delivery_rows
deliveries_data-eq now event_id [] s = ground arith
deliveries_data-eq now event_id (e ∷ es) s =
    rw (deliveries_data-eq now event_id es (record s { next_id = suc s.next_id })) (ground arith)

unfoldable pub outbox_rows : ℕ → ℕ → List Delivery → List DeliveryOutbox
outbox_rows now n [] = []
outbox_rows now n (d ∷ ds) = outbox_row now n d.id now 1 ∷ outbox_rows now (suc n) ds

pub outbox_data-eq :
    (now : ℕ) (ds : List Delivery) (s : Db)
    → outbox_data now ds s ≡ (ok (outbox_rows now s.next_id ds), advanced s (length ds))
unfolding outbox_data outbox_rows
outbox_data-eq now [] s = ground arith
outbox_data-eq now (d ∷ ds) s =
    rw (outbox_data-eq now ds (record s { next_id = suc s.next_id })) (ground arith)

-- What the new rows add.
module _ (now event_id : ℕ) where
  delivery_rows-above :
      (n k : ℕ) (es : List Endpoint) → k < n → All (λ x. x.id ≢ k) (delivery_rows now event_id n es)
  unfolding delivery_rows
  delivery_rows-above n k [] h = tt
  delivery_rows-above n k (e ∷ es) h = (omega arith, delivery_rows-above (suc n) k es (omega arith))

  delivery_rows-HasDistinctIds :
      (n : ℕ) (es : List Endpoint) → HasDistinctIds (delivery_rows now event_id n es)
  unfolding delivery_rows
  delivery_rows-HasDistinctIds n [] = tt
  delivery_rows-HasDistinctIds n (e ∷ es) =
      (delivery_rows-above (suc n) n es (omega arith), delivery_rows-HasDistinctIds (suc n) es)

  pub HasDistinctIds-append :
      (n m : ℕ) (ds : List Delivery) (es : List Endpoint)
      → All (λ d. d.id < n) ds
      → n ≤ m
      → HasDistinctIds ds
      → HasDistinctIds (ds ++ delivery_rows now event_id m es)
  HasDistinctIds-append n m [] es f h d = delivery_rows-HasDistinctIds m es
  HasDistinctIds-append n m (x ∷ ds) es (f, fs) h (d, hs) = (
    All-append (λ y. y.id ≢ x.id) ds (delivery_rows now event_id m es) d
        (delivery_rows-above m x.id es (omega arith)),
    HasDistinctIds-append n m ds es fs h hs,
  )

  pub delivery_rows-fresh :
      (n m : ℕ) (es : List Endpoint)
      → n + length es ≤ m
      → All (λ d. d.id < m) (delivery_rows now event_id n es)
  unfolding delivery_rows
  delivery_rows-fresh n m [] h = tt
  delivery_rows-fresh n m (e ∷ es) h = (omega arith, delivery_rows-fresh (suc n) m es (omega arith))

  pub delivery_rows-known :
      (n m : ℕ) (es : List Endpoint)
      → event_id < m
      → All (λ d. d.event_id < m) (delivery_rows now event_id n es)
  unfolding delivery_rows
  delivery_rows-known n m [] h = tt
  delivery_rows-known n m (e ∷ es) h = (h, delivery_rows-known (suc n) m es h)

  some_of-delivery_rows_ne :
      (q : DeliveryStatus → Bool) (other n : ℕ) (es : List Endpoint)
      → other ≢ event_id
      → some_of q other (delivery_rows now event_id n es) ≡ false
  unfolding delivery_rows
  some_of-delivery_rows_ne q other n [] h = refl
  some_of-delivery_rows_ne q other n (e ∷ es) h =
      ground (arith, some_of-delivery_rows_ne q other (suc n) es h)

  -- The other events see what they saw.
  pub agree_append :
      (n m : ℕ) (ds : List Delivery) (es : List Endpoint) (evs : List WebhookEvent)
      → All (λ e. e.id < event_id) evs
      → All (AgreesWith ds) evs
      → All (AgreesWith (ds ++ delivery_rows now event_id m es)) evs
  agree_append n m ds es [] f a = tt
  agree_append n m ds es (e ∷ evs) (f, fs) (a, as') = (
    Agrees-congr e.status e.id ds (ds ++ delivery_rows now event_id m es)
        (λ q.
          any-append _ ds (delivery_rows now event_id m es)
          ∙ ground (arith, some_of-delivery_rows_ne q e.id m es))
        a,
    agree_append n m ds es evs fs as',
  )

pub some_of_above :
    (q : DeliveryStatus → Bool) (n : ℕ) (ds : List Delivery)
    → All (λ d. d.event_id < n) ds
    → some_of q n ds ≡ false
some_of_above q n [] h = refl
some_of_above q n (d ∷ ds) h = ground (arith, some_of_above q n ds h.1)
