-- ===== src/Endpoints/Ownership.antt =====
-- What the operations on an endpoint do for its tenant, and for others.
use webhook_engine.Base.{
  ℕ, ◌+◌, ◌<◌, ◌≡◌, refl, ◌≢◌, false, none, some, List, [], ◌∷◌, find?, filter, patch, All, String,
  str_eq, Result, ok, err, http_exception, arith,
}
use webhook_engine.Prisma.{Prisma, IsLawful, reference, lawful-eq}
use webhook_engine.Schema.{Endpoint, EndpointSubscription, Db}
use webhook_engine.World.{Envelope, Headers}
use webhook_engine.Dispatcher.Executor.{Services, previous_signature}
use webhook_engine.Events.Ingest.{is_receiver}
use webhook_engine.Events.Maintenance.{day}
use webhook_engine.Endpoints.{EndpointUpdate, endpoint_has_id, is_owned, deactivated, rotated}
use webhook_engine.Endpoints.UseCases.{update_endpoint, delete_endpoint, rotate_endpoint_secret}

-- None of the rows is the tenant's endpoint of that identifier.
abbrev pub IsForeign : ℕ → ℕ → Endpoint → Type 0
IsForeign tenant_id id e = e.id ≡ id → e.tenant_id ≢ tenant_id

foreign_none :
    (tenant_id id : ℕ) (es : List Endpoint)
    → All (IsForeign tenant_id id) es
    → find? (is_owned tenant_id id) es ≡ none
foreign_none tenant_id id [] h = refl
foreign_none tenant_id id (e ∷ es) h = ground (arith, h.0, foreign_none tenant_id id es h.1)

-- A tenant can neither change nor delete an endpoint that is not its own, nor rotate its secret: the
-- answer is 404, and nothing changes.
pub endpoint_foreign :
    (db : Prisma)
    → IsLawful db
    → (now tenant_id id : ℕ) (assert_safe : String → Result String) (input : EndpointUpdate)
      (secret_key : String) (s : Db)
    → All (IsForeign tenant_id id) s.endpoints
    → (update_endpoint db now assert_safe tenant_id id input s
        ≡ (err (http_exception 404 "Endpoint not found"), s))
      × (delete_endpoint db now tenant_id id s ≡ (err (http_exception 404 "Endpoint not found"), s))
      × (rotate_endpoint_secret db now secret_key tenant_id id s
          ≡ (err (http_exception 404 "Endpoint not found"), s))
unfolding update_endpoint delete_endpoint rotate_endpoint_secret
endpoint_foreign db law now tenant_id id assert_safe input secret_key s h =
    let none' = foreign_none tenant_id id s.endpoints h in
    (rw (lawful-eq db law, none'), rw (lawful-eq db law, none'), rw (lawful-eq db law, none'))

inactive_after :
    (now id tenant_id : ℕ) (type : String) (subscriptions : List EndpointSubscription)
    (es : List Endpoint)
    → All
        (λ (e : Endpoint). e.id ≢ id)
        (filter
          (is_receiver subscriptions tenant_id type)
          (patch (endpoint_has_id id) (deactivated now) es))
inactive_after now id tenant_id type subscriptions [] = tt
inactive_after now id tenant_id type subscriptions (e ∷ es) =
    ground (arith, inactive_after now id tenant_id type subscriptions es)

-- After a tenant deleted its endpoint, no event is delivered to it, of whatever type: it is not among
-- the receivers.
pub delete_endpoint_receivers :
    (db : Prisma)
    → IsLawful db
    → (now tenant_id id : ℕ) (type : String) (owned e : Endpoint) (s : Db)
    → find? (is_owned tenant_id id) s.endpoints ≡ some owned
    → find? (endpoint_has_id id) s.endpoints ≡ some e
    → (t : Db) × (delete_endpoint db now tenant_id id s ≡ (ok tt, t))
      × All
          (λ (x : Endpoint). x.id ≢ id)
          (filter (is_receiver t.subscriptions tenant_id type) t.endpoints)
unfolding delete_endpoint
delete_endpoint_receivers db law now tenant_id id type owned e s h found = (
  record s { endpoints = patch (endpoint_has_id id) (deactivated now) s.endpoints },
  rw (lawful-eq db law, h, found),
  inactive_after now id tenant_id type s.subscriptions s.endpoints,
)

find?-rotated :
    (now id : ℕ) (secret previous : String) (expires_at : ℕ) (es : List Endpoint) {e : Endpoint}
    → find? (endpoint_has_id id) es ≡ some e
    → find?
        (endpoint_has_id id)
        (patch (endpoint_has_id id) (rotated now secret previous expires_at) es)
      ≡ some (rotated now secret previous expires_at e)
find?-rotated now id secret previous expires_at [] h = absurd cc
find?-rotated now id secret previous expires_at (x ∷ es) {e} h =
    ground (arith, find?-rotated now id secret previous expires_at es {e = e})

reference_rotate :
    (now tenant_id id : ℕ) (secret_key : String) (owned e : Endpoint) (s : Db)
    → find? (is_owned tenant_id id) s.endpoints ≡ some owned
    → find? (endpoint_has_id id) s.endpoints ≡ some e
    → rotate_endpoint_secret reference now secret_key tenant_id id s ≡ (
      ok (id, secret_key, now + day),
      record s {
        endpoints =
            patch
              (endpoint_has_id id)
              (rotated now secret_key e.secret_key (now + day))
              s.endpoints;
      },
    )
unfolding rotate_endpoint_secret
reference_rotate now tenant_id id secret_key owned e s h found = simp (h, found)

-- For a day after a tenant rotated the secret of its endpoint, requests carry a second signature, by
-- the secret before: receivers may change theirs at any time of the day.
pub rotate_endpoint_secret_overlap :
    {E : Type 0} (db : Prisma)
    → IsLawful db
    → (svc : Services E) (now time tenant_id id : ℕ) (secret_key : String) (owned e : Endpoint)
      (envelope : Envelope) (headers : Headers) (s : Db)
    → find? (is_owned tenant_id id) s.endpoints ≡ some owned
    → find? (endpoint_has_id id) s.endpoints ≡ some e
    → str_eq e.secret_key "" ≡ false
    → time < now + day
    → (t : Db) × (e' : Endpoint) × (rotate_endpoint_secret db now secret_key tenant_id id s
        ≡ (ok (id, secret_key, now + day), t))
      × (find? (endpoint_has_id id) t.endpoints ≡ some e')
      × (e'.secret_key ≡ secret_key)
      × (previous_signature svc time e' envelope headers
          ≡ some (
              Prim.Native.String.◌++◌ "v1="
                (svc.generate_signature e.secret_key headers.timestamp envelope)))
unfolding previous_signature
rotate_endpoint_secret_overlap db law svc now time tenant_id id secret_key owned e envelope headers
      s h found key soon =
    (
      record s {
        endpoints =
            patch (endpoint_has_id id) (rotated now secret_key e.secret_key (now + day))
              s.endpoints;
      },
      rotated now secret_key e.secret_key (now + day) e,
      rw (lawful-eq db law) (reference_rotate now tenant_id id secret_key owned e s h found),
      find?-rotated now id secret_key e.secret_key (now + day) s.endpoints found,
      refl,
      ground (arith, key),
    )
