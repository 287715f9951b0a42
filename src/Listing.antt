-- ===== src/Listing.antt =====
-- Pages of events and of deliveries: `findAll` and `findById` of
-- src/events/infrastructure/persistence/prisma-events.repository.ts and
-- src/deliveries/infrastructure/persistence/prisma-deliveries.repository.ts, with the use cases that
-- list them. The request validation demands a page and a limit of at least 1 and texts that are dates;
-- a date is the time that it names, in milliseconds.
pub mod Events
pub mod Deliveries
pub mod Arranged
pub mod Conditions
pub mod Walk
pub mod Pages
use webhook_engine.Base.{
  ℕ, ◌+◌, ◌-◌, ◌*◌, ◌/◌, ◌==◌, ltb, leb, if◌then◌else◌, Bool, true, false, ◌&&◌, Option, none, some,
  List, String, str_eq, take, drop,
}

pub record Pagination : Type 0 where
  pub page : ℕ
  pub limit : ℕ
  pub total : ℕ
  pub total_pages : ℕ
  pub has_next : Bool
  pub has_prev : Bool

-- `Math.ceil(total / limit)`
abbrev page_count : ℕ → ℕ → ℕ
page_count total limit = (total + limit - 1) / limit

unfoldable pub pagination : ℕ → ℕ → ℕ → Pagination
pagination page limit total = record {
  page = page;
  limit = limit;
  total = total;
  total_pages = page_count total limit;
  has_next = ltb (page * limit) total;
  has_prev = ltb 1 page;
}

-- `skip` and `take` of the query
unfoldable pub page_of : {A : Type 0} → ℕ → ℕ → List A → List A
page_of page limit rows = take limit (drop ((page - 1) * limit) rows)

-- `query.page ?? 1` and `query.limit ?? 20`
abbrev pub or_default : Option ℕ → ℕ → ℕ
or_default none n = n
or_default (some n) _ = n

-- A condition that is set only for a text that is not empty.
abbrev pub matches_text : Option String → String → Bool
matches_text none value = true
matches_text (some text') value = if str_eq text' "" then true else str_eq value text'

abbrev pub matches_id : Option ℕ → ℕ → Bool
matches_id none value = true
matches_id (some id) value = value == id

-- `gte: from` and `lte: to`, each where it is given
abbrev pub is_within : Option ℕ → Option ℕ → ℕ → Bool
is_within none none time = true
is_within (some from) none time = leb from time
is_within none (some to) time = leb time to
is_within (some from) (some to) time = leb from time && leb time to
