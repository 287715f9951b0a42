-- ===== src/Events/Publisher/Marked.antt =====
-- The rows of the outbox, and what the publisher makes of them, field by field:
-- src/events/infrastructure/queue/delivery-outbox-publisher.service.ts
use webhook_engine.Base.{
  ◌+◌, false, ℕ, zero, suc, eq_self, ◌≡◌, refl, ap, ◌∙◌, inl, inr, Bool, true, some, List, [], ◌∷◌,
  All, any, find?, filter, patch, take, Bool-cases, arith, none, Text, leb, Option-cases,
}
use webhook_engine.Schema.{DeliveryOutbox}
use webhook_engine.Events.Queue.{Job, JobId}
use webhook_engine.Events.Maintenance.{outbox_has_id}
use webhook_engine.Events.Publisher.{is_due}

-- The job of a row: named after the row and the number of its refusals, for the delivery and the attempt
-- of the row.
abbrev pub job_for : DeliveryOutbox → Job
job_for row = record {
  id = JobId.current row.id row.attempts;
  delivery_id = row.delivery_id;
  expected_attempt = row.attempt_number;
}

-- A row that is marked as published at a time, and one whose job was refused with a text.
abbrev pub published_row : ℕ → DeliveryOutbox → DeliveryOutbox
published_row now row = record {
  id = row.id;
  delivery_id = row.delivery_id;
  available_at = row.available_at;
  attempt_number = row.attempt_number;
  published_at = some now;
  attempts = row.attempts;
  last_error = none;
  created_at = row.created_at;
}

abbrev pub refused_row : Text → DeliveryOutbox → DeliveryOutbox
refused_row text' row = record {
  id = row.id;
  delivery_id = row.delivery_id;
  available_at = row.available_at;
  attempt_number = row.attempt_number;
  published_at = row.published_at;
  attempts = row.attempts + 1;
  last_error = some text';
  created_at = row.created_at;
}

-- A row that is not published yet, and available.
abbrev pub waits_at : ℕ → DeliveryOutbox → Bool
waits_at now row = elim row.published_at [ none ↦ leb row.available_at now | some time ↦ false ]

-- The outbox in which the given rows are marked as published.
abbrev pub is_one_of : List DeliveryOutbox → DeliveryOutbox → Bool
is_one_of rows row = any (λ (d : DeliveryOutbox). outbox_has_id d.id row) rows

abbrev pub mark_all : ℕ → List DeliveryOutbox → List DeliveryOutbox → List DeliveryOutbox
mark_all now rows = patch (is_one_of rows) (published_row now)

abbrev pub IsStored : List DeliveryOutbox → DeliveryOutbox → Type 0
IsStored outbox row = any (outbox_has_id row.id) outbox ≡ true

pub mark_all-none : (now : ℕ) (outbox : List DeliveryOutbox) → mark_all now [] outbox ≡ outbox
mark_all-none now [] = refl
mark_all-none now (row ∷ rows) = ap (λ xs. row ∷ xs) (mark_all-none now rows)

pub mark_all-more :
    (now : ℕ) (row : DeliveryOutbox) (rows outbox : List DeliveryOutbox)
    → mark_all now rows (patch (outbox_has_id row.id) (published_row now) outbox)
      ≡ mark_all now (row ∷ rows) outbox
mark_all-more now row rows [] = refl
mark_all-more now row rows (x ∷ xs) = ground (arith, mark_all-more now row rows xs)

any-patch_by :
    (p q : DeliveryOutbox → Bool) (f : DeliveryOutbox → DeliveryOutbox) (xs : List DeliveryOutbox)
    → ((x : DeliveryOutbox) → p (f x) ≡ p x)
    → any p (patch q f xs) ≡ any p xs
any-patch_by p q f [] same = refl
any-patch_by p q f (x ∷ xs) same = ground (arith, same x, any-patch_by p q f xs same)

pub any-find? :
    (p : DeliveryOutbox → Bool) (xs : List DeliveryOutbox)
    → any p xs ≡ true
    → (x : DeliveryOutbox) × (find? p xs ≡ some x)
any-find? p [] h = absurd cc
any-find? p (x ∷ xs) h = elim (Bool-cases (p x)) [
  | inl here ↦ (x, rw here refl)
  | inr later ↦ rw later (any-find? p xs (rw later at h))
]

pub Stored-patch :
    (q : DeliveryOutbox → Bool) (now : ℕ) (outbox rows : List DeliveryOutbox)
    → All (IsStored outbox) rows
    → All (IsStored (patch q (published_row now) outbox)) rows
Stored-patch q now outbox [] h = tt
Stored-patch q now outbox (row ∷ rows) h = (
  any-patch_by (outbox_has_id row.id) q (published_row now) outbox (λ x. refl) ∙ h.0,
  Stored-patch q now outbox rows h.1,
)

pub All-filter :
    (P : DeliveryOutbox → Type 0) (p : DeliveryOutbox → Bool) (xs : List DeliveryOutbox)
    → All P xs
    → All P (filter p xs)
All-filter P p [] h = tt
All-filter P p (x ∷ xs) h = elim (Bool-cases (p x)) [
  | inl here ↦ rw here (h.0, All-filter P p xs h.1)
  | inr not_here ↦ rw not_here (All-filter P p xs h.1)
]

pub All-take :
    (P : DeliveryOutbox → Type 0) (n : ℕ) (xs : List DeliveryOutbox) → All P xs → All P (take n xs)
All-take P zero xs h = tt
All-take P (suc n) [] h = tt
All-take P (suc n) (x ∷ xs) h = (h.0, All-take P n xs h.1)

Stored-more :
    (x : DeliveryOutbox) (xs rows : List DeliveryOutbox)
    → All (IsStored xs) rows
    → All (IsStored (x ∷ xs)) rows
Stored-more x xs [] h = tt
Stored-more x xs (row ∷ rows) h = (ground (arith, h.0), Stored-more x xs rows h.1)

pub All-Stored : (xs : List DeliveryOutbox) → All (IsStored xs) xs
All-Stored [] = tt
All-Stored (x ∷ xs) = (rw (eq_self x.id) refl, Stored-more x xs xs (All-Stored xs))

is_due-waits : (now : ℕ) (row : DeliveryOutbox) → is_due now row ≡ waits_at now row
is_due-waits now row = elim (Option-cases row.published_at) [
  | inl e ↦ rw e refl
  | inr (time, e) ↦ rw e refl
]

pub filter_due :
    (now : ℕ) (rows : List DeliveryOutbox) → filter (is_due now) rows ≡ filter (waits_at now) rows
filter_due now [] = refl
filter_due now (row ∷ rows) = rw (is_due-waits now row, filter_due now rows) refl
