-- ===== src/Tests/EndpointExamples.antt =====
-- The theorems on endpoints, applied to the small deployment.
use webhook_engine.Base.{
  ◌≡◌, refl, ◌≢◌, some, none, find?, filter, All, String, Result, ok, err, http_exception, arith,
}
use webhook_engine.Prisma.{reference, reference-IsLawful}
use webhook_engine.Schema.{Endpoint, Db}
use webhook_engine.World.{Headers}
use webhook_engine.Dispatcher.Executor.{previous_signature, envelope_of}
use webhook_engine.Events.Ingest.{is_receiver}
use webhook_engine.Endpoints.{EndpointUpdate, endpoint_has_id}
use webhook_engine.Endpoints.UseCases.{update_endpoint, delete_endpoint, rotate_endpoint_secret}
use webhook_engine.Endpoints.Ownership.{
  endpoint_foreign, delete_endpoint_receivers, rotate_endpoint_secret_overlap,
}
use webhook_engine.Tests.Data.{deployment, receiver, services, to_send}

abbrev no_update : EndpointUpdate
no_update = record { url = none; event_types = none; rate_limit = none; is_active = none }

abbrev any_url : String → Result String
any_url url = ok url

endpoint_foreign_example :
    (update_endpoint reference 9 any_url 77 2 no_update deployment
      ≡ (err (http_exception 404 "Endpoint not found"), deployment))
    × (delete_endpoint reference 9 77 2 deployment
        ≡ (err (http_exception 404 "Endpoint not found"), deployment))
    × (rotate_endpoint_secret reference 9 "new" 77 2 deployment
        ≡ (err (http_exception 404 "Endpoint not found"), deployment))
endpoint_foreign_example =
    endpoint_foreign reference reference-IsLawful 9 77 2 any_url no_update "new" deployment
      (λ _ h. omega (arith, h), tt)

delete_endpoint_receivers_example :
    (t : Db) × (delete_endpoint reference 9 1 2 deployment ≡ (ok tt, t))
    × All
        (λ (x : Endpoint). x.id ≢ 2)
        (filter (is_receiver t.subscriptions 1 "order.paid") t.endpoints)
delete_endpoint_receivers_example =
    delete_endpoint_receivers reference reference-IsLawful 9 1 2 "order.paid" receiver receiver
      deployment refl refl

abbrev some_headers : Headers
some_headers = record { timestamp = "0"; signature = "v1=0"; signature_previous = none }

rotate_endpoint_secret_overlap_example :
    (t : Db) × (e' : Endpoint) × (rotate_endpoint_secret reference 9 "new" 1 2 deployment
      ≡ (ok (2, "new", 86400009), t))
    × (find? (endpoint_has_id 2) t.endpoints ≡ some e')
    × (e'.secret_key ≡ "new")
    × (previous_signature services 1000 e' (envelope_of to_send) some_headers ≡ some "v1=0")
rotate_endpoint_secret_overlap_example =
    rotate_endpoint_secret_overlap reference reference-IsLawful services 9 1000 1 2 "new" receiver
      receiver (envelope_of to_send) some_headers deployment refl refl refl (omega arith)
