-- ===== src/Tenants.antt =====
-- src/tenants: src/tenants/infrastructure/persistence/prisma-tenants.repository.ts and the entity of
-- src/tenants/domain/tenant.entity.ts.
pub mod UseCases
pub mod Creation
pub mod Keys
use webhook_engine.Base.{
  ℕ, suc, ◌==◌, if◌then◌else◌, Bool, true, false, not, ◌&&◌, ◌||◌, Option, none, some, List, [],
  ◌∷◌, map, any, length, String, str_eq, Text, p2002, http_exception, Result, ok, err, M, pure,
  throw, ◌>>=◌, ◌>>◌,
}
use webhook_engine.Prisma.{Prisma}
use webhook_engine.Schema.{Tenant, EndpointSubscription, Db}
use webhook_engine.Schema.Table
use webhook_engine.Listing.{Pagination, pagination, page_of, or_default}
use webhook_engine.Endpoints.{EndpointInput, has_url, new_endpoint}

-- `toJSON`: a tenant as it is answered, without the hash of its key.
pub record TenantView : Type 0 where
  pub id : ℕ
  pub name : String
  pub rate_limit : ℕ
  pub is_active : Bool
  pub created_at : ℕ
  pub updated_at : ℕ

unfoldable pub to_json : Tenant → TenantView
to_json t = record {
  id = t.id;
  name = t.name;
  rate_limit = t.rate_limit;
  is_active = t.is_active;
  created_at = t.created_at;
  updated_at = t.updated_at;
}

pub record CreateTenantCommand : Type 0 where
  pub name : String
  pub rate_limit : Option ℕ
  pub endpoints : Option (List EndpointInput)

-- An endpoint of the input of the repository.
pub record NewEndpoint : Type 0 where
  pub input : EndpointInput
  pub secret_key : String

pub record CreateTenantInput : Type 0 where
  pub name : String
  pub api_key_hash : String
  pub rate_limit : Option ℕ
  pub endpoints : List NewEndpoint

pub record UpdateTenantInput : Type 0 where
  pub name : Option String
  pub rate_limit : Option ℕ

pub record PaginatedTenants : Type 0 where
  pub tenants : List Tenant
  pub pagination : Pagination

pub record CreatedTenant : Type 0 where
  pub tenant : TenantView
  pub api_key : Text
  pub endpoints : List NewEndpoint

abbrev pub tenant_has_id : ℕ → Tenant → Bool
tenant_has_id id t = t.id == id

-- The unique constraint on `apiKeyHash`.
abbrev pub has_key_hash : String → Tenant → Bool
has_key_hash hash t = str_eq t.api_key_hash hash

-- The key of a subscription is the endpoint with the type.
abbrev pub same_subscription : EndpointSubscription → EndpointSubscription → Bool
same_subscription x y = x.endpoint_id == y.endpoint_id && str_eq x.event_type y.event_type

abbrev is_listed : Tenant → Bool
is_listed t = t.is_active

-- A row with the defaults of the schema.
abbrev pub new_tenant : ℕ → ℕ → CreateTenantInput → Tenant
new_tenant now id input = record {
  id = id;
  name = input.name;
  api_key_hash = input.api_key_hash;
  rate_limit = or_default input.rate_limit 10;
  is_active = true;
  created_at = now;
  updated_at = now;
}

abbrev or_keep : Option String → String → String
or_keep none old = old
or_keep (some new) _ = new

abbrev pub renamed : ℕ → UpdateTenantInput → Tenant → Tenant
renamed now input t = record t {
  name = or_keep input.name t.name;
  rate_limit = or_default input.rate_limit t.rate_limit;
  updated_at = now;
}

abbrev pub deactivated_tenant : ℕ → Tenant → Tenant
deactivated_tenant now t = record t { is_active = false; updated_at = now }

abbrev pub rekeyed : ℕ → String → Tenant → Tenant
rekeyed now hash t = record t { api_key_hash = hash; updated_at = now }

module _ (db : Prisma) (now : ℕ) where
  -- The nested `create` of the subscriptions and of the endpoints.
  unfoldable pub create_subscriptions : ℕ → List String → M Db (Unit {0})
  create_subscriptions id [] = pure tt
  create_subscriptions id (type ∷ types) = do
    _ ←
        Table.create db Table.endpoint_subscription
          (same_subscription (record { endpoint_id = id; event_type = type }))
          (record { endpoint_id = id; event_type = type })
    create_subscriptions id types

  unfoldable pub create_endpoints : ℕ → List NewEndpoint → M Db (Unit {0})
  unfolding create_subscriptions
  create_endpoints tenant_id [] = pure tt
  create_endpoints tenant_id (e ∷ es) = do
    id ← Table.fresh_id
    _ ←
        Table.create db Table.endpoint (has_url tenant_id e.input.url)
          (new_endpoint now id tenant_id e.input e.secret_key)
    create_subscriptions id e.input.event_types
    create_endpoints tenant_id es

  unfoldable pub create_tenant_row : CreateTenantInput → M Db Tenant
  unfolding create_endpoints
  create_tenant_row input = db.transaction (do
    id ← Table.fresh_id
    tenant ←
        Table.create db Table.tenant (has_key_hash input.api_key_hash) (new_tenant now id input)
    create_endpoints id input.endpoints
    pure tenant)

  unfoldable pub find_all_tenants : (List Tenant → List Tenant) → ℕ → ℕ → M Db PaginatedTenants
  unfolding pagination page_of
  find_all_tenants order_by_created_at page limit s =
      let rows = db.find_many is_listed s.tenants in
      (
        ok (record {
          tenants = page_of page limit (order_by_created_at rows);
          pagination = pagination page limit (length rows);
        }),
        s,
      )

  unfoldable pub find_tenant : ℕ → M Db (Option Tenant)
  find_tenant id = Table.find_first db Table.tenant (tenant_has_id id)

  unfoldable pub update_tenant_row : ℕ → UpdateTenantInput → M Db Tenant
  update_tenant_row id input = Table.update db Table.tenant (tenant_has_id id) (renamed now input)

  unfoldable pub delete_tenant_row : ℕ → M Db (Unit {0})
  delete_tenant_row id = do
    _ ← Table.update db Table.tenant (tenant_has_id id) (deactivated_tenant now)
    pure tt

  abbrev unique_or_throw : Option Tenant → M Db (Unit {0})
  unique_or_throw none = pure tt
  unique_or_throw (some _) = throw p2002

  -- The unique constraint, where the row is there and another has the hash.
  abbrev check_hash : ℕ → String → Option Tenant → M Db (Unit {0})
  check_hash id hash none = pure tt
  check_hash id hash (some _) =
      Table.find_first db Table.tenant (λ t. not (tenant_has_id id t) && has_key_hash hash t)
      >>= unique_or_throw

  unfoldable pub update_api_key_hash : ℕ → String → M Db (Unit {0})
  unfolding find_tenant
  update_api_key_hash id hash = do
    stored ← find_tenant id
    check_hash id hash stored
    _ ← Table.update db Table.tenant (tenant_has_id id) (rekeyed now hash)
    pure tt
