-- ===== src/Tests/TenantExamples.antt =====
-- The theorems on tenants, applied to the small deployment.
use webhook_engine.Base.{
  true, ℕ, ◌≡◌, refl, eq_iff, none, some, [], ◌∷◌, String, Text, units, if◌then◌else◌, text_eq,
  p2002, ok, err, http_exception, Result, arith,
}
use webhook_engine.Prisma.{reference, reference-IsLawful}
use webhook_engine.Schema.{Db}
use webhook_engine.Security.ApiKey.{match_bearer}
use webhook_engine.Security.Guards.{tenant_guard}
use webhook_engine.Tenants.{CreateTenantCommand, CreatedTenant}
use webhook_engine.Tenants.UseCases.{create_tenant, delete_tenant, rotate_tenant_api_key}
use webhook_engine.Tenants.Creation.{create_tenant-IsAtomic, create_tenant-Authenticates}
use webhook_engine.Tenants.Keys.{delete_tenant-Locks, rotate_tenant_api_key-Rekeys}
use webhook_engine.Tests.Data.{shop, deployment}

abbrev old_key : Text
old_key = units "whk_0000000000000000000000000000000000000000000000000000000000000000"

abbrev new_key : Text
new_key = units "whk_1000000000000000000000000000000000000000000000000000000000000000"

abbrev old_header : Text
old_header = units "Bearer whk_0000000000000000000000000000000000000000000000000000000000000000"

abbrev new_header : Text
new_header = units "bearer whk_1000000000000000000000000000000000000000000000000000000000000000"

-- A digest that tells the two keys apart.
abbrev digest : Text → String
digest key = if text_eq key old_key then "hash" else "new hash"

old_match : match_bearer old_header ≡ some old_key
unfolding match_bearer
old_match = refl

new_match : match_bearer new_header ≡ some new_key
unfolding match_bearer
new_match = refl

abbrev no_text : ℕ → String
no_text id = "?"

delete_tenant-Locks_example :
    (t : Db) × (delete_tenant reference 9 no_text 1 deployment ≡ (ok tt, t))
    × (tenant_guard reference digest (some old_header) t
        ≡ (err (http_exception 401 "Invalid tenant API key"), t))
delete_tenant-Locks_example =
    delete_tenant-Locks reference reference-IsLawful 9 no_text digest 1 shop (some old_header)
      old_key deployment refl old_match (λ _. refl, tt)

rotate_tenant_api_key-Rekeys_example :
    (t : Db) × (rotate_tenant_api_key reference 9 no_text digest new_key 1 deployment
      ≡ (ok (1, new_key), t))
    × (tenant_guard reference digest (some new_header) t ≡ (ok 1, t))
    × (tenant_guard reference digest (some old_header) t
        ≡ (err (http_exception 401 "Invalid tenant API key"), t))
rotate_tenant_api_key-Rekeys_example =
    rotate_tenant_api_key-Rekeys reference reference-IsLawful 9 no_text digest 1 shop
      (some old_header) (some new_header) old_key new_key deployment refl refl old_match new_match
      (ground (arith, eq_iff "hash" "new hash")) (λ _. refl, tt)
      (ground (arith, eq_iff "hash" "new hash"), tt)

abbrev command : CreateTenantCommand
command = record {
  name = "second";
  rate_limit = none;
  endpoints =
      some
        (record { url = "https://example.org/in"; event_types = "*" ∷ []; rate_limit = none } ∷ []);
}

abbrev secrets : ℕ → String
secrets i = "whsec_0"

abbrev safe : String → Result String
safe url = ok url

-- The same type twice breaks the key of the subscriptions, after the tenant's row was made.
abbrev repeated : CreateTenantCommand
repeated = record {
  name = "third";
  rate_limit = none;
  endpoints = some (
      record { url = "https://example.org/in"; event_types = "*" ∷ ("*" ∷ []); rate_limit = none }
      ∷ []);
}

abbrev attempted : Result CreatedTenant × Db
attempted = create_tenant reference 9 safe digest new_key secrets repeated deployment

refused : attempted ≡ (err p2002, attempted.1)
unfolding create_tenant
refused = refl

create_tenant-IsAtomic_example : attempted.1 ≡ deployment
create_tenant-IsAtomic_example =
    create_tenant-IsAtomic safe reference reference-IsLawful 9 digest new_key secrets repeated
      deployment refused

abbrev answer : CreatedTenant
answer = record {
  tenant = record {
    id = 6;
    name = "second";
    rate_limit = 10;
    is_active = true;
    created_at = 9;
    updated_at = 9;
  };
  api_key = new_key;
  endpoints =
      record {
        input = record {
          url = "https://example.org/in";
          event_types = "*" ∷ [];
          rate_limit = none;
        };
        secret_key = "whsec_0";
      }
      ∷ [];
}

abbrev created : Db
created = (create_tenant reference 9 safe digest new_key secrets command deployment).1

creates :
    create_tenant reference 9 safe digest new_key secrets command deployment ≡ (ok answer, created)
unfolding create_tenant
creates = refl

create_tenant-Authenticates_example :
    tenant_guard reference digest (some new_header) created ≡ (ok 6, created)
create_tenant-Authenticates_example =
    create_tenant-Authenticates safe reference reference-IsLawful 9 digest new_key secrets command
      (some new_header) deployment answer created creates new_match
