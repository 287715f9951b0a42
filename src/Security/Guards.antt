-- ===== src/Security/Guards.antt =====
-- src/security/admin-api-key.guard.ts, src/security/tenant-api-key.guard.ts and
-- src/security/current-tenant.decorator.ts: a guard returns what the handlers after it may use.
pub mod Sound
use webhook_engine.Base.{
  ℕ, if◌then◌else◌, Bool, true, false, ◌&&◌, Option, none, some, String, str_eq, Text,
  http_exception, Result, ok, err, M, pure, throw, ◌>>=◌,
}
use webhook_engine.Prisma.{Prisma}
use webhook_engine.Schema.{Tenant, Db}
use webhook_engine.Schema.Table
use webhook_engine.Security.ApiKey.{safe_equal, match_bearer}

-- `where: { apiKeyHash, isActive: true }`
abbrev pub has_active_key : String → Tenant → Bool
has_active_key hash t = str_eq t.api_key_hash hash && t.is_active

-- `authorization?.match(…)`
abbrev pub match_authorization : Option Text → Option Text
match_authorization none = none
match_authorization (some authorization) = match_bearer authorization

-- `request.header('x-admin-api-key') ?? ''`
abbrev pub or_empty : Option String → String
or_empty none = ""
or_empty (some value) = value

module _ {S : Type 0} where
  abbrev admin_or_403 : Result Bool → M S (Unit {0})
  admin_or_403 (err e) = throw e
  admin_or_403 (ok true) = pure tt
  admin_or_403 (ok false) = throw (http_exception 403 "A valid admin API key is required")

  -- The key of the settings, which may throw, is read after the header.
  unfoldable pub admin_guard : Result String → Option String → M S (Unit {0})
  unfolding safe_equal
  admin_guard (err e) supplied = throw e
  admin_guard (ok admin_api_key) supplied =
      admin_or_403 (safe_equal (or_empty supplied) admin_api_key)

module _ (db : Prisma) (sha256 : Text → String) where
  abbrev tenant_or_401 : Option Tenant → M Db ℕ
  tenant_or_401 none = throw (http_exception 401 "Invalid tenant API key")
  tenant_or_401 (some t) = pure t.id

  abbrev pub authenticate : Option Text → M Db ℕ
  authenticate none = throw (http_exception 401 "A valid tenant API key is required")
  authenticate (some key) =
      Table.find_first db Table.tenant (has_active_key (sha256 key)) >>= tenant_or_401

  -- The tenant that `request.tenantId` is set to.
  unfoldable pub tenant_guard : Option Text → M Db ℕ
  tenant_guard authorization = authenticate (match_authorization authorization)
