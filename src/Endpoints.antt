-- ===== src/Endpoints.antt =====
-- src/endpoints/infrastructure/persistence/prisma-endpoints.repository.ts, the repository of the
-- endpoints, and src/endpoints/application/services/endpoint-ownership.ts; a generated secret is an
-- argument. The use cases are in the module below.
pub mod UseCases
pub mod Ownership
use webhook_engine.Base.{
  ℕ, ◌+◌, ◌==◌, if◌then◌else◌, Bool, true, false, not, ◌&&◌, Option, none, some, List, [], ◌∷◌, map,
  filter, String, str_eq, Error, p2002, p2025, http_exception, Result, ok, err, M, pure, throw,
  try_catch, ◌>>=◌, ◌>>◌,
}
use webhook_engine.Prisma.{Prisma}
use webhook_engine.Schema.{Endpoint, EndpointSubscription, Db}
use webhook_engine.Schema.Table
use webhook_engine.Events.Maintenance.{day}

pub record EndpointInput : Type 0 where
  pub url : String
  pub event_types : List String
  pub rate_limit : Option ℕ

-- What is not given is `none`; a limit may be given as `null`, which takes the limit away.
pub record EndpointUpdate : Type 0 where
  pub url : Option String
  pub event_types : Option (List String)
  pub rate_limit : Option (Option ℕ)
  pub is_active : Option Bool

pub record EndpointSummary : Type 0 where
  pub id : ℕ
  pub url : String
  pub is_active : Bool
  pub rate_limit : Option ℕ
  pub created_at : Option ℕ
  pub updated_at : Option ℕ
  pub event_types : List String

-- `[...new Set(eventTypes)]`: the first of equal ones stays.
unfoldable pub unique_event_types : List String → List String
unique_event_types [] = []
unique_event_types (x ∷ xs) = x ∷ filter (λ y. not (str_eq y x)) (unique_event_types xs)

abbrev pub endpoint_has_id : ℕ → Endpoint → Bool
endpoint_has_id id e = e.id == id

-- `where: { id, tenantId }`
abbrev pub is_owned : ℕ → ℕ → Endpoint → Bool
is_owned tenant_id id e = endpoint_has_id id e && e.tenant_id == tenant_id

-- The unique constraint on `[tenantId, url]`.
abbrev pub has_url : ℕ → String → Endpoint → Bool
has_url tenant_id url e = e.tenant_id == tenant_id && str_eq e.url url

abbrev pub new_endpoint : ℕ → ℕ → ℕ → EndpointInput → String → Endpoint
new_endpoint now id tenant_id input secret_key = record {
  id = id;
  tenant_id = tenant_id;
  url = input.url;
  secret_key = secret_key;
  previous_secret_key = none;
  previous_secret_expires_at = none;
  rate_limit = input.rate_limit;
  is_active = true;
  created_at = now;
  updated_at = now;
}

abbrev or_keep {ℓ} : {A : Type ℓ} → Option A → A → A
or_keep none a = a
or_keep (some a) _ = a

-- `data` of the update: what is not given stays.
abbrev pub updated_with : ℕ → EndpointUpdate → Endpoint → Endpoint
updated_with now input e = record e {
  url = or_keep input.url e.url;
  is_active = or_keep input.is_active e.is_active;
  rate_limit = or_keep input.rate_limit e.rate_limit;
  updated_at = now;
}

abbrev pub deactivated : ℕ → Endpoint → Endpoint
deactivated now e = record e { is_active = false; updated_at = now }

abbrev pub rotated : ℕ → String → String → ℕ → Endpoint → Endpoint
rotated now secret_key previous expires_at e = record e {
  secret_key = secret_key;
  previous_secret_key = some previous;
  previous_secret_expires_at = some expires_at;
  updated_at = now;
}

abbrev subscriptions_to : ℕ → List String → List EndpointSubscription
subscriptions_to id types = map (λ t. record { endpoint_id = id; event_type = t }) types

module _ (db : Prisma) where
  abbrev event_types_of : Db → ℕ → List String
  event_types_of s id =
      map (λ (x : EndpointSubscription). x.event_type)
        (db.find_many (λ (x : EndpointSubscription). x.endpoint_id == id) s.subscriptions)

  -- `select`, without or with the times
  unfoldable pub summary : Endpoint → M Db EndpointSummary
  summary e s = (
    ok (record {
      id = e.id;
      url = e.url;
      is_active = e.is_active;
      rate_limit = e.rate_limit;
      created_at = none;
      updated_at = none;
      event_types = event_types_of s e.id;
    }),
    s,
  )

  abbrev dated_summary : Db → Endpoint → EndpointSummary
  dated_summary s e = record {
    id = e.id;
    url = e.url;
    is_active = e.is_active;
    rate_limit = e.rate_limit;
    created_at = some e.created_at;
    updated_at = some e.updated_at;
    event_types = event_types_of s e.id;
  }

  unfoldable pub list_endpoints : (List Endpoint → List Endpoint) → ℕ → M Db (List EndpointSummary)
  list_endpoints order_by_created_at tenant_id s = (
    ok (
        map (dated_summary s) (
          order_by_created_at
            (db.find_many (λ (e : Endpoint). e.tenant_id == tenant_id) s.endpoints))),
    s,
  )

  -- `select: { id: true }`
  abbrev id_of : Option Endpoint → Option ℕ
  id_of none = none
  id_of (some e) = some e.id

  unfoldable pub find_owned : ℕ → ℕ → M Db (Option ℕ)
  find_owned tenant_id id s = (ok (id_of (db.find_first (is_owned tenant_id id) s.endpoints)), s)

  abbrev owned_or_404 : Option ℕ → M Db (Unit {0})
  owned_or_404 none = throw (http_exception 404 "Endpoint not found")
  owned_or_404 (some id) = pure tt

  unfoldable pub require_owned_endpoint : ℕ → ℕ → M Db (Unit {0})
  unfolding find_owned
  require_owned_endpoint tenant_id id = find_owned tenant_id id >>= owned_or_404

  abbrev secret_or_throw : Option Endpoint → M Db String
  secret_or_throw none = throw p2025
  secret_or_throw (some e) = pure e.secret_key

  -- `findUniqueOrThrow`
  unfoldable pub find_secret : ℕ → M Db String
  find_secret id = Table.find_first db Table.endpoint (endpoint_has_id id) >>= secret_or_throw

module _ (db : Prisma) (now : ℕ) where
  unfoldable pub create_endpoint_row : ℕ → EndpointInput → String → M Db EndpointSummary
  unfolding summary unique_event_types
  create_endpoint_row tenant_id input secret_key = db.transaction (do
    id ← Table.fresh_id
    e ←
        Table.create db Table.endpoint (has_url tenant_id input.url)
          (new_endpoint now id tenant_id input secret_key)
    Table.create_many db Table.endpoint_subscription
        (subscriptions_to e.id (unique_event_types input.event_types))
    summary db e)

  -- `if (input.eventTypes) { … }`
  unfoldable pub replace_subscriptions : ℕ → Option (List String) → M Db (Unit {0})
  unfolding unique_event_types
  replace_subscriptions id none = pure tt
  replace_subscriptions id (some types) = do
    Table.delete_many db Table.endpoint_subscription (λ x. x.endpoint_id == id)
    Table.create_many db Table.endpoint_subscription
        (subscriptions_to id (unique_event_types types))

  -- The unique constraint, where the URL of a row that is there is changed.
  unfoldable pub check_url : ℕ → ℕ → Option String → M Db (Unit {0})
  check_url tenant_id id none s = pure tt s
  check_url tenant_id id (some url) s = elim (db.find_first (is_owned tenant_id id) s.endpoints) [
    | none ↦ pure tt s
    | some _ ↦
        elim (db.find_first
          (λ (e : Endpoint). not (endpoint_has_id id e) && has_url tenant_id url e) s.endpoints) [
            | none ↦ pure tt s
            | some _ ↦ throw p2002 s
          ]
  ]

  unfoldable pub update_endpoint_row : ℕ → ℕ → EndpointUpdate → M Db EndpointSummary
  unfolding replace_subscriptions check_url summary
  update_endpoint_row tenant_id id input = db.transaction (do
    replace_subscriptions id input.event_types
    check_url tenant_id id input.url
    e ← Table.update db Table.endpoint (is_owned tenant_id id) (updated_with now input)
    summary db e)

  unfoldable pub soft_delete : ℕ → M Db (Unit {0})
  soft_delete id = do
    _ ← Table.update db Table.endpoint (endpoint_has_id id) (deactivated now)
    pure tt

  unfoldable pub rotate_secret : ℕ → String → ℕ → M Db (Unit {0})
  unfolding find_secret
  rotate_secret id secret_key expires_at = do
    current ← find_secret db id
    _ ←
        Table.update db Table.endpoint (endpoint_has_id id)
          (rotated now secret_key current expires_at)
    pure tt
