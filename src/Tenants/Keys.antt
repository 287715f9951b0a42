-- ===== src/Tenants/Keys.antt =====
-- What happens to the API key of a tenant: deletion and rotation in src/tenants/application/use-cases,
-- as src/security/tenant-api-key.guard.ts sees it.
use webhook_engine.Base.{
  ℕ, ◌≡◌, ◌≢◌, refl, true, false, not, ◌&&◌, Option, none, some, List, [], ◌∷◌, String, eq_iff,
  Text, find?, patch, All, http_exception, ok, err, arith,
}
use webhook_engine.Prisma.{Prisma, IsLawful, reference, lawful-eq}
use webhook_engine.Schema.{Tenant, Db}
use webhook_engine.Security.Guards.{has_active_key, match_authorization, tenant_guard}
use webhook_engine.Tenants.{tenant_has_id, has_key_hash, deactivated_tenant, rekeyed}
use webhook_engine.Tenants.UseCases.{delete_tenant, rotate_tenant_api_key}

-- No other tenant has the hash of this one's key.
abbrev pub IsOwnKey : ℕ → String → List Tenant → Type 0
IsOwnKey id hash ts = All (λ (t : Tenant). t.api_key_hash ≡ hash → t.id ≡ id) ts

-- A change of one tenant that ends its use of a hash.
Retires : String → (Tenant → Tenant) → Type 0
Retires hash f = (t : Tenant) → has_active_key hash (f t) ≡ false

find?-retired :
    (id : ℕ) (hash : String) (f : Tenant → Tenant) (ts : List Tenant)
    → Retires hash f
    → IsOwnKey id hash ts
    → find? (has_active_key hash) (patch (tenant_has_id id) f ts) ≡ none
unfolding Retires
find?-retired id hash f [] gone own = refl
find?-retired id hash f (t ∷ ts) gone own =
    ground (arith, gone t, own.0, eq_iff t.api_key_hash hash, find?-retired id hash f ts gone own.1)

deactivated_tenant-Retires : (now : ℕ) (hash : String) → Retires hash (deactivated_tenant now)
unfolding Retires
deactivated_tenant-Retires now hash t = ground arith

rekeyed-Retires : (now : ℕ) (hash new : String) → hash ≢ new → Retires hash (rekeyed now new)
unfolding Retires
rekeyed-Retires now hash new h t = ground (arith, eq_iff new hash)

find?-rekeyed :
    (now id : ℕ) (new : String) (ts : List Tenant) {tenant : Tenant}
    → All (λ (t : Tenant). t.api_key_hash ≢ new) ts
    → find? (tenant_has_id id) ts ≡ some tenant
    → tenant.is_active ≡ true
    → find? (has_active_key new) (patch (tenant_has_id id) (rekeyed now new) ts)
      ≡ some (rekeyed now new tenant)
find?-rekeyed now id new [] unused h active = absurd cc
find?-rekeyed now id new (t ∷ ts) {tenant} unused h active = ground (
  arith,
  unused.0,
  eq_iff t.api_key_hash new,
  eq_iff new new,
  find?-rekeyed now id new ts {tenant = tenant} unused.1,
)

find?-unused :
    (id : ℕ) (new : String) (ts : List Tenant)
    → All (λ (t : Tenant). t.api_key_hash ≢ new) ts
    → find? (λ (t : Tenant). not (tenant_has_id id t) && has_key_hash new t) ts ≡ none
find?-unused id new [] h = refl
find?-unused id new (t ∷ ts) h =
    ground (arith, h.0, eq_iff t.api_key_hash new, find?-unused id new ts h.1)

module _ (sha256 : Text → String) (authorization : Option Text) (key : Text) where
  guard_refuses :
      (t : Db)
      → match_authorization authorization ≡ some key
      → find? (has_active_key (sha256 key)) t.tenants ≡ none
      → tenant_guard reference sha256 authorization t
        ≡ (err (http_exception 401 "Invalid tenant API key"), t)
  unfolding tenant_guard
  guard_refuses t e h = rw (e, h) refl

  pub guard_passes :
      (t : Db) {tenant : Tenant}
      → match_authorization authorization ≡ some key
      → find? (has_active_key (sha256 key)) t.tenants ≡ some tenant
      → tenant_guard reference sha256 authorization t ≡ (ok tenant.id, t)
  unfolding tenant_guard
  guard_passes t e h = rw (e, h) refl

-- After the deletion of a stored tenant, its API key no longer passes the guard, where no other tenant
-- has the hash of that key.
pub delete_tenant-Locks :
    (db : Prisma)
    → IsLawful db
    → (now : ℕ) (id_text : ℕ → String) (sha256 : Text → String) (id : ℕ) (tenant : Tenant)
      (authorization : Option Text) (key : Text) (s : Db)
    → find? (tenant_has_id id) s.tenants ≡ some tenant
    → match_authorization authorization ≡ some key
    → IsOwnKey id (sha256 key) s.tenants
    → (t : Db) × (delete_tenant db now id_text id s ≡ (ok tt, t))
      × (tenant_guard db sha256 authorization t
          ≡ (err (http_exception 401 "Invalid tenant API key"), t))
unfolding delete_tenant
delete_tenant-Locks db law now id_text sha256 id tenant authorization key s found e own =
    rw (lawful-eq db law) (
      record s { tenants = patch (tenant_has_id id) (deactivated_tenant now) s.tenants },
      rw (found, found) refl,
      guard_refuses sha256 authorization key _ e (
          find?-retired id (sha256 key) (deactivated_tenant now) s.tenants
            (deactivated_tenant-Retires now (sha256 key)) own),
    )

-- After a rotation of the API key of a stored, active tenant, to a key whose hash no tenant has, the
-- new key passes the guard as that tenant; the old key, which no other tenant has and whose hash is not
-- that of the new one, no longer passes.
pub rotate_tenant_api_key-Rekeys :
    (db : Prisma)
    → IsLawful db
    → (now : ℕ) (id_text : ℕ → String) (sha256 : Text → String) (id : ℕ) (tenant : Tenant)
      (old_header new_header : Option Text) (old_key new_key : Text) (s : Db)
    → find? (tenant_has_id id) s.tenants ≡ some tenant
    → tenant.is_active ≡ true
    → match_authorization old_header ≡ some old_key
    → match_authorization new_header ≡ some new_key
    → sha256 old_key ≢ sha256 new_key
    → IsOwnKey id (sha256 old_key) s.tenants
    → All (λ (t : Tenant). t.api_key_hash ≢ sha256 new_key) s.tenants
    → (t : Db) × (rotate_tenant_api_key db now id_text sha256 new_key id s ≡ (ok (id, new_key), t))
      × (tenant_guard db sha256 new_header t ≡ (ok tenant.id, t))
      × (tenant_guard db sha256 old_header t
          ≡ (err (http_exception 401 "Invalid tenant API key"), t))
unfolding rotate_tenant_api_key
rotate_tenant_api_key-Rekeys db law now id_text sha256 id tenant old_header new_header old_key
      new_key s found active old new differ own unused =
    rw (lawful-eq db law) (
      record s { tenants = patch (tenant_has_id id) (rekeyed now (sha256 new_key)) s.tenants },
      rw (found, found, find?-unused id (sha256 new_key) s.tenants unused, found) refl,
      guard_passes sha256 new_header new_key _ new
          (find?-rekeyed now id (sha256 new_key) s.tenants unused found active),
      guard_refuses sha256 old_header old_key _ old (
          find?-retired id (sha256 old_key) (rekeyed now (sha256 new_key)) s.tenants
            (rekeyed-Retires now (sha256 old_key) (sha256 new_key) differ) own),
    )
