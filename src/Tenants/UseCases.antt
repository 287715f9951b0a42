-- ===== src/Tenants/UseCases.antt =====
-- src/tenants/application/use-cases. `assert_safe` is `assertSafeWebhookUrl` under the settings of the
-- process, `sha256` the digest of an API key; a generated key or secret is an argument, and `id_text` is
-- the text of an identifier.
use webhook_engine.Base.{
  ℕ, suc, if◌then◌else◌, Bool, false, ◌||◌, Option, none, some, List, [], ◌∷◌, any, String, str_eq,
  Text, http_exception, Result, M, pure, throw, ◌>>=◌, ◌>>◌,
}
use webhook_engine.Prisma.{Prisma}
use webhook_engine.Schema.{Tenant, Db}
use webhook_engine.Listing.{or_default}
use webhook_engine.Endpoints.{EndpointInput}
use webhook_engine.Tenants.{
  CreateTenantCommand, NewEndpoint, UpdateTenantInput, PaginatedTenants, CreatedTenant, to_json,
  create_tenant_row, find_all_tenants, find_tenant, update_tenant_row, delete_tenant_row,
  update_api_key_hash,
}

-- `command.endpoints ?? []`
abbrev pub or_no_endpoints : Option (List EndpointInput) → List EndpointInput
or_no_endpoints none = []
or_no_endpoints (some es) = es

-- `new Set(urls).size !== urls.length`
unfoldable pub has_duplicates : List EndpointInput → Bool
has_duplicates [] = false
has_duplicates (e ∷ es) = any (λ (x : EndpointInput). str_eq x.url e.url) es || has_duplicates es

-- The secret of each endpoint by its index.
abbrev pub with_secrets : (ℕ → String) → ℕ → List EndpointInput → List NewEndpoint
with_secrets secret i [] = []
with_secrets secret i (e ∷ es) =
    record { input = e; secret_key = secret i } ∷ with_secrets secret (suc i) es

module _ (db : Prisma) (now : ℕ) where
  abbrev tenant_or_404 : (ℕ → String) → ℕ → Option Tenant → M Db Tenant
  tenant_or_404 id_text id (some tenant) = pure tenant
  tenant_or_404 id_text id none = throw (
      http_exception 404 (
        Prim.Native.String.◌++◌ "Tenant with ID "
          (Prim.Native.String.◌++◌ (id_text id) " not found")))

  module _ (id_text : ℕ → String) where
    unfoldable pub get_tenant : ℕ → M Db Tenant
    unfolding find_tenant
    get_tenant id = find_tenant db now id >>= tenant_or_404 id_text id

    unfoldable pub update_tenant : ℕ → UpdateTenantInput → M Db Tenant
    unfolding get_tenant update_tenant_row
    update_tenant id input = do _ ← get_tenant id; update_tenant_row db now id input

    unfoldable pub delete_tenant : ℕ → M Db (Unit {0})
    unfolding get_tenant delete_tenant_row
    delete_tenant id = do _ ← get_tenant id; delete_tenant_row db now id

    unfoldable pub rotate_tenant_api_key : (Text → String) → Text → ℕ → M Db (ℕ × Text)
    unfolding get_tenant update_api_key_hash
    rotate_tenant_api_key sha256 api_key id = do
      _ ← get_tenant id
      update_api_key_hash db now id (sha256 api_key)
      pure (id, api_key)

  unfoldable pub list_tenants :
      (List Tenant → List Tenant) → Option ℕ → Option ℕ → M Db PaginatedTenants
  unfolding find_all_tenants
  list_tenants order_by_created_at page limit =
      find_all_tenants db now order_by_created_at (or_default page 1) (or_default limit 20)

  module _ (assert_safe : String → Result String) where
    abbrev pub checked : String → M Db String
    checked url s = (assert_safe url, s)

    -- `Promise.all`; of several rejections the one of the first URL is taken.
    unfoldable pub normalized : List EndpointInput → M Db (List EndpointInput)
    normalized [] = pure []
    normalized (e ∷ es) = do
      url ← checked e.url
      rest ← normalized es
      pure ((record e { url = url }) ∷ rest)

    -- what follows the check of the URLs
    unfoldable pub create_with_urls :
        (Text → String)
        → Text
        → (ℕ → String)
        → CreateTenantCommand
        → List EndpointInput
        → M Db CreatedTenant
    unfolding has_duplicates create_tenant_row to_json
    create_with_urls sha256 api_key secret command urls =
        if has_duplicates urls
        then throw (http_exception 400 "A tenant cannot contain duplicate endpoint URLs")
        else (do
          tenant ← create_tenant_row db now (record {
            name = command.name;
            api_key_hash = sha256 api_key;
            rate_limit = command.rate_limit;
            endpoints = with_secrets secret 0 urls;
          })
          pure (record {
            tenant = to_json tenant;
            api_key = api_key;
            endpoints = with_secrets secret 0 urls;
          }))

    unfoldable pub create_tenant :
        (Text → String) → Text → (ℕ → String) → CreateTenantCommand → M Db CreatedTenant
    unfolding normalized create_with_urls
    create_tenant sha256 api_key secret command =
        normalized (or_no_endpoints command.endpoints)
        >>= create_with_urls sha256 api_key secret command
