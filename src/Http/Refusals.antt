-- ===== src/Http/Refusals.antt =====
-- Requests that are refused, from the guard to the reply.
use webhook_engine.Base.{
  ℕ, ◌≡◌, refl, Option, some, String, Text, ◌⊎◌, inl, inr, Error, http_exception, ok, err,
}
use webhook_engine.Prisma.{IsLawful}
use webhook_engine.Schema.{Db}
use webhook_engine.World.{World}
use webhook_engine.Config.{admin_api_key}
use webhook_engine.Security.Guards.{tenant_guard, admin_guard}
use webhook_engine.Security.Guards.Sound.{
  IsAuthenticated, tenant_guard-decides, admin_guard-settings,
}
use webhook_engine.Http.Filter.{Framework, RequestInfo, ErrorReply, error_reply}
use webhook_engine.Http.Api.{Backend, Route, handle, serve, respond}
use webhook_engine.Http.Admin.{AdminBackend, AdminRoute, handle_admin, serve_admin, respond_admin}

module _ {E : Type 0} (backend : Backend E) where
  serve-refused :
      (authorization : Option Text) (route : Route) (w : World E) {e : Error}
      → tenant_guard backend.db backend.sha256 authorization w.db ≡ (err e, w.db)
      → serve backend authorization route w ≡ (err e, w)
  unfolding serve
  serve-refused authorization route w h = rw h refl

  serve-passed :
      (authorization : Option Text) (route : Route) (w : World E) {id : ℕ}
      → tenant_guard backend.db backend.sha256 authorization w.db ≡ (ok id, w.db)
      → serve backend authorization route w ≡ handle backend id route w
  unfolding serve
  serve-passed authorization route w h = rw h refl

  respond-refused :
      (framework : Framework) (request : RequestInfo) (authorization : Option Text) (route : Route)
      (w : World E) {e : Error}
      → tenant_guard backend.db backend.sha256 authorization w.db ≡ (err e, w.db)
      → respond backend framework request authorization route w
        ≡ (inr (error_reply framework request w.now e), w)
  unfolding respond
  respond-refused framework request authorization route w h =
      rw (serve-refused authorization route w h) refl

  error_reply-401 :
      (framework : Framework) (request : RequestInfo) (now : ℕ) (message : String)
      → (error_reply framework request now (http_exception 401 message)).status ≡ 401
  unfolding error_reply
  error_reply-401 framework request now message = refl

  -- Whatever the route of a tenant's interface: either the header of the request holds the key of an
  -- active tenant, and the handler of the route runs for that tenant; or the request is answered with
  -- status 401, and nothing changes: no row of the database, no counter, and nothing outside.
  pub respond-decides :
      IsLawful backend.db
      → (framework : Framework) (request : RequestInfo) (authorization : Option Text)
        (route : Route) (w : World E)
      → ((id : ℕ) × IsAuthenticated backend.sha256 w.db authorization id
          × (serve backend authorization route w ≡ handle backend id route w))
        ⊎ ((reply : ErrorReply) × (reply.status ≡ 401)
            × (respond backend framework request authorization route w ≡ (inr reply, w)))
  respond-decides law framework request authorization route w =
      elim (tenant_guard-decides backend.db law backend.sha256 authorization w.db) [
        | inl (id, passes, known) ↦ inl (id, known, serve-passed authorization route w passes)
        | inr (message, refuses) ↦ inr (
          error_reply framework request w.now (http_exception 401 message),
          error_reply-401 framework request w.now message,
          respond-refused framework request authorization route w refuses,
        )
      ]

module _ (backend : AdminBackend) (now : ℕ) where
  respond_admin-refused :
      (framework : Framework) (request : RequestInfo) (supplied : Option String)
      (route : AdminRoute) (s : Db) {e : Error}
      → admin_guard (admin_api_key backend.env).0 supplied s ≡ (err e, s)
      → respond_admin backend now framework request supplied route s
        ≡ (inr (error_reply framework request now e), s)
  unfolding respond_admin serve_admin
  respond_admin-refused framework request supplied route s h = rw h refl

  serve_admin-passed :
      (supplied : Option String) (route : AdminRoute) (s : Db)
      → admin_guard (admin_api_key backend.env).0 supplied s ≡ (ok tt, s)
      → serve_admin backend now supplied route s ≡ handle_admin backend now route s
  unfolding serve_admin
  serve_admin-passed supplied route s h = rw h refl

  -- Whatever the route of the administrator's interface: either the request supplies the key that the
  -- settings hold, and the handler of the route runs; or it is answered with a failure, and no row of
  -- the database changes. A request without the header is always refused, since no setting makes the
  -- key empty.
  pub respond_admin-decides :
      (framework : Framework) (request : RequestInfo) (supplied : Option String)
      (route : AdminRoute) (s : Db)
      → ((key : String) × (supplied ≡ some key)
          × ((admin_api_key backend.env).0 ≡ ok key)
          × (serve_admin backend now supplied route s ≡ handle_admin backend now route s))
        ⊎ ((reply : ErrorReply) × (respond_admin backend now framework request supplied route s
              ≡ (inr reply, s)))
  respond_admin-decides framework request supplied route s =
      elim (admin_guard-settings backend.env supplied s) [
        | inl (key, supplies, set, passes) ↦
            inl (key, supplies, set, serve_admin-passed supplied route s passes)
        | inr (e, refuses) ↦ inr (
          error_reply framework request now e,
          respond_admin-refused framework request supplied route s refuses,
        )
      ]
