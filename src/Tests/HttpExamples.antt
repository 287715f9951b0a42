-- ===== src/Tests/HttpExamples.antt =====
-- The theorems on the HTTP interface, applied to the small deployment.
use webhook_engine.Base.{ℕ, ◌≡◌, ◌⊎◌, inr, Option, none, some, String, Text, units, pure, ok}
use webhook_engine.Prisma.{reference, reference-IsLawful}
use webhook_engine.Config.{Env, admin_api_key}
use webhook_engine.Security.Guards.Sound.{IsAuthenticated}
use webhook_engine.Http.Filter.{Framework, RequestInfo, ErrorReply, object_body}
use webhook_engine.Http.Api.{Backend, get_endpoints, handle, serve, respond}
use webhook_engine.Http.Admin.{
  AdminBackend, remove_tenant, handle_admin, serve_admin, respond_admin,
}
use webhook_engine.Http.Refusals.{respond-decides, respond_admin-decides}
use webhook_engine.Tests.Data.{deployment, world}

abbrev framework : Framework
framework = record {
  get_response = λ status message. object_body (some (units message)) (some (units "Unauthorized"));
  to_upper_case = λ t. t;
}

abbrev request : RequestInfo
request = record { request_id = some "1"; url = "/api/v1/endpoints" }

abbrev backend : Backend (Unit {0})
backend = record {
  db = reference;
  sha256 = λ _. "hash";
  assert_safe = λ url. ok url;
  publish_pending = pure tt;
  endpoints_by_created_at = λ rows. rows;
  deliveries_by_created_at = λ query rows. rows;
  events_by_created_at = λ query rows. rows;
  secret = "whsec_0";
}

abbrev header : Option Text
header = some (units "Bearer whk_0")

respond-decides_example :
    ((id : ℕ) × IsAuthenticated (λ _. "hash") deployment header id
      × (serve backend header get_endpoints world ≡ handle backend id get_endpoints world))
    ⊎ ((reply : ErrorReply) × (reply.status ≡ 401)
        × (respond backend framework request header get_endpoints world ≡ (inr reply, world)))
respond-decides_example =
    respond-decides backend reference-IsLawful framework request header get_endpoints world

abbrev environment : Env
environment = λ _. none

abbrev admin_backend : AdminBackend
admin_backend = record {
  db = reference;
  env = environment;
  sha256 = λ _. "hash";
  assert_safe = λ url. ok url;
  id_text = λ id. "?";
  by_created_at = λ rows. rows;
  api_key = units "whk_1";
  secret = λ i. "whsec_0";
}

respond_admin-decides_example :
    ((key : String) × (none ≡ some key)
      × ((admin_api_key environment).0 ≡ ok key)
      × (serve_admin admin_backend 9 none (remove_tenant (ok 1)) deployment
          ≡ handle_admin admin_backend 9 (remove_tenant (ok 1)) deployment))
    ⊎ ((reply : ErrorReply) × (respond_admin admin_backend 9 framework request none
            (remove_tenant (ok 1))
            deployment
          ≡ (inr reply, deployment)))
respond_admin-decides_example =
    respond_admin-decides admin_backend 9 framework request none (remove_tenant (ok 1)) deployment
