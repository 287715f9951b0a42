-- ===== src/Http/Admin.antt =====
-- The routes of the administrator: src/tenants/presentation/http/tenants.controller.ts behind
-- src/security/admin-api-key.guard.ts. A tenant is answered by its `toJSON`.
use webhook_engine.Base.{
  ℕ, Option, List, map, String, Text, Result, ok, err, M, pure, ◌>>=◌, ◌>>◌, ◌⊎◌, inl, inr,
}
use webhook_engine.Prisma.{Prisma}
use webhook_engine.Schema.{Tenant, Db}
use webhook_engine.Listing.{Pagination}
use webhook_engine.Config.{Env, admin_api_key}
use webhook_engine.Security.Guards.{admin_guard}
use webhook_engine.Tenants.{
  TenantView, to_json, CreateTenantCommand, CreatedTenant, UpdateTenantInput,
}
use webhook_engine.Tenants.UseCases.{
  create_tenant, list_tenants, get_tenant, update_tenant, delete_tenant, rotate_tenant_api_key,
}
use webhook_engine.Http.Filter.{Framework, RequestInfo, ErrorReply, error_reply}
use webhook_engine.Http.Api.{piped}

pub data AdminRoute : Type 0 where
  post_tenant : Result CreateTenantCommand → AdminRoute
  -- the page and the limit of the query
  get_tenants : Result (Option ℕ × Option ℕ) → AdminRoute
  get_tenant_by_id : Result ℕ → AdminRoute
  patch_tenant : Result ℕ → Result UpdateTenantInput → AdminRoute
  remove_tenant post_rotate_api_key : Result ℕ → AdminRoute

pub data AdminReply : Type 0 where
  created_tenant : CreatedTenant → AdminReply
  tenants_page : List TenantView → Pagination → AdminReply
  one_tenant : TenantView → AdminReply
  nothing : AdminReply
  rotated_key : ℕ × Text → AdminReply

unfoldable pub admin_status : AdminRoute → ℕ
admin_status (post_tenant body) = 201
admin_status (post_rotate_api_key id) = 201
admin_status (remove_tenant id) = 204
admin_status _ = 200

pub record AdminBackend : Type 1 where
  pub db : Prisma
  pub env : Env
  pub sha256 : Text → String
  pub assert_safe : String → Result String
  pub id_text : ℕ → String
  pub by_created_at : List Tenant → List Tenant
  -- the key and the secrets that the request would generate
  pub api_key : Text
  pub secret : ℕ → String

module _ (backend : AdminBackend) (now : ℕ) where
  unfoldable pub handle_admin : AdminRoute → M Db AdminReply
  unfolding to_json
  handle_admin (post_tenant body) = do
    dto ← piped body
    r ←
        create_tenant backend.db now backend.assert_safe backend.sha256 backend.api_key
          backend.secret dto
    pure (created_tenant r)
  handle_admin (get_tenants query) = do
    q ← piped query
    r ← list_tenants backend.db now backend.by_created_at (q.0) (q.1)
    pure (tenants_page (map to_json r.tenants) r.pagination)
  handle_admin (get_tenant_by_id uuid) = do
    id ← piped uuid
    t ← get_tenant backend.db now backend.id_text id
    pure (one_tenant (to_json t))
  handle_admin (patch_tenant uuid body) = do
    id ← piped uuid
    dto ← piped body
    t ← update_tenant backend.db now backend.id_text id dto
    pure (one_tenant (to_json t))
  handle_admin (remove_tenant uuid) = do
    id ← piped uuid
    delete_tenant backend.db now backend.id_text id
    pure nothing
  handle_admin (post_rotate_api_key uuid) = do
    id ← piped uuid
    r ← rotate_tenant_api_key backend.db now backend.id_text backend.sha256 backend.api_key id
    pure (rotated_key r)

  -- The guard reads the key of the settings, then the handler runs.
  unfoldable pub serve_admin : Option String → AdminRoute → M Db AdminReply
  unfolding handle_admin admin_guard admin_api_key
  serve_admin supplied route =
      admin_guard (admin_api_key backend.env).0 supplied >> handle_admin route

  abbrev pub admin_answered :
      Framework → RequestInfo → ℕ → Result AdminReply × Db → ((ℕ × AdminReply) ⊎ ErrorReply) × Db
  admin_answered framework request status (ok reply, s) = (inl (status, reply), s)
  admin_answered framework request status (err e, s) =
      (inr (error_reply framework request now e), s)

  unfoldable pub respond_admin :
      Framework
      → RequestInfo
      → Option String
      → AdminRoute
      → Db
      → ((ℕ × AdminReply) ⊎ ErrorReply) × Db
  unfolding serve_admin admin_status
  respond_admin framework request supplied route s =
      admin_answered framework request (admin_status route) (serve_admin supplied route s)
