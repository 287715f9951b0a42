-- ===== src/Security/Guards/Sound.antt =====
-- Who passes the guards.
use webhook_engine.Base.{
  ap, Error, Ensures, subst, ℕ, length, ◌≡◌, ◌≢◌, ◌⊎◌, eq_self, refl, sym, true, false, Option,
  none, some, Option-cases, inl, inr, String, str_eq, eq_iff, Text, find?, find?-holds, Result, ok,
  err, http_exception, arith, Bool-cases,
}
use webhook_engine.Prisma.{Prisma, IsLawful, reference, lawful-eq}
use webhook_engine.Config.{Env, or_nullish, is_production, admin_api_key}
use webhook_engine.Schema.{Tenant, Db}
use webhook_engine.Security.Bytes.{utf8, timing_safe_equal, text_eq→≡, text_eq_self, utf8-inj}
use webhook_engine.Security.ApiKey.{safe_equal}
use webhook_engine.Security.Guards.{
  has_active_key, match_authorization, or_empty, admin_guard, authenticate, tenant_guard,
}

safe_equal-≡ : (a b : String) → safe_equal a b ≡ ok true → a ≡ b
unfolding safe_equal timing_safe_equal
safe_equal-≡ a b h = utf8-inj a b (text_eq→≡ (utf8 a) (utf8 b) (ground arith))

-- The guard never answers with an error of the comparison.
safe_equal-decides : (a b : String) → (safe_equal a b ≡ ok true) ⊎ (safe_equal a b ≡ ok false)
unfolding safe_equal timing_safe_equal
safe_equal-decides a b = ground arith

safe_equal_self : (a : String) → safe_equal a a ≡ ok true
unfolding safe_equal timing_safe_equal
safe_equal_self a = rw (eq_self (length (utf8 a)), text_eq_self (utf8 a)) refl

-- The guard of the tenants' interface lets a request pass that supplies the admin key of the settings,
-- and answers any other with 403, one without a key among them; it never fails in another way.
pub admin_guard-decides :
    {S : Type 0} (key : String) (supplied : Option String) (s : S)
    → ((or_empty supplied ≡ key) × (admin_guard (ok key) supplied s ≡ (ok tt, s)))
      ⊎ ((or_empty supplied ≢ key)
          × (admin_guard (ok key) supplied s
              ≡ (err (http_exception 403 "A valid admin API key is required"), s)))
unfolding admin_guard
admin_guard-decides key supplied s = elim (safe_equal-decides (or_empty supplied) key) [
  | inl equal ↦ inl (safe_equal-≡ (or_empty supplied) key equal, rw equal refl)
  | inr different ↦ inr (
    (λ e.
        let h : safe_equal key key ≡ ok false =
          subst (λ (x : String). safe_equal x key ≡ ok false) e different in
        let h' = safe_equal_self key in cc),
    rw different refl,
  )
]

development_key : ◌≢◌ {A = String} "dev-admin-key-change-me" ""
development_key = ground (arith, eq_iff "dev-admin-key-change-me" "")

admin_api_key-nonempty : (env : Env) → Ensures (λ key. key ≢ "") (admin_api_key env)
unfolding admin_api_key is_production
admin_api_key-nonempty env =
    let key = or_nullish (env "ADMIN_API_KEY") "" in
    elim (Bool-cases (str_eq key "")) [
      | inr present ↦ rw present (ground (arith, eq_iff key ""))
      | inl absent ↦ elim (Bool-cases (is_production env)) [
        | inl production ↦ rw (absent, production) tt
        | inr other ↦ rw (absent, other) development_key
      ]
    ]

-- The header supplies a text that is not empty.
supplied-nonempty :
    (supplied : Option String) (key : String)
    → or_empty supplied ≡ key
    → key ≢ ""
    → supplied ≡ some key
supplied-nonempty none key e nonempty = absurd (nonempty (sym e))
supplied-nonempty (some value) key e nonempty = ap some e

guarded_by :
    {S : Type 0} (r : Result String × Env) (supplied : Option String) (s : S)
    → Ensures (λ key. key ≢ "") r
    → ((key : String) × (supplied ≡ some key)
        × (r.0 ≡ ok key)
        × (admin_guard r.0 supplied s ≡ (ok tt, s)))
      ⊎ ((e : Error) × (admin_guard r.0 supplied s ≡ (err e, s)))
unfolding admin_guard
guarded_by (err e, env) supplied s nonempty = inr (e, refl)
guarded_by (ok key, env) supplied s nonempty = elim (admin_guard-decides key supplied s) [
  | inl (e, passes) ↦ inl (key, supplied-nonempty supplied key e nonempty, refl, passes)
  | inr (_, refused) ↦ inr (http_exception 403 "A valid admin API key is required", refused)
]

-- In every environment a request passes only if it supplies the key of the settings, which is never
-- empty: without the header no request passes. Where the key is missing in production, every request
-- fails.
pub admin_guard-settings :
    {S : Type 0} (env : Env) (supplied : Option String) (s : S)
    → ((key : String) × (supplied ≡ some key)
        × ((admin_api_key env).0 ≡ ok key)
        × (admin_guard (admin_api_key env).0 supplied s ≡ (ok tt, s)))
      ⊎ ((e : Error) × (admin_guard (admin_api_key env).0 supplied s ≡ (err e, s)))
admin_guard-settings env supplied s =
    guarded_by (admin_api_key env) supplied s (admin_api_key-nonempty env)

-- Who passes the guard of a tenant's interface: the header holds a key, and the tenant that the
-- handlers are given is stored, is active, and has the hash of that key; the guard changes nothing.
pub record IsAuthenticated (sha256 : Text → String) (s : Db) (authorization : Option Text) (id : ℕ)
    : Type 0 where
  pub key : Text
  pub tenant : Tenant
  pub supplies : match_authorization authorization ≡ some key
  pub stores : find? (has_active_key (sha256 key)) s.tenants ≡ some tenant
  pub has_id : tenant.id ≡ id
  pub has_key : tenant.api_key_hash ≡ sha256 key
  pub is_active : tenant.is_active ≡ true

authenticate-decides :
    (sha256 : Text → String) (authorization supplied : Option Text) (s : Db)
    → match_authorization authorization ≡ supplied
    → ((id : ℕ) × (authenticate reference sha256 supplied s ≡ (ok id, s))
        × IsAuthenticated sha256 s authorization id)
      ⊎ ((message : String) × (authenticate reference sha256 supplied s
            ≡ (err (http_exception 401 message), s)))
authenticate-decides sha256 authorization none s e = inr (_, refl)
authenticate-decides sha256 authorization (some key) s e =
    elim (Option-cases (find? (has_active_key (sha256 key)) s.tenants)) [
      | inl missing ↦ inr ("Invalid tenant API key", rw missing refl)
      | inr (tenant, found) ↦
          let holds = find?-holds (has_active_key (sha256 key)) s.tenants found in
          inl (
            tenant.id,
            rw found refl,
            record {
              key = key;
              tenant = tenant;
              supplies = e;
              stores = found;
              has_id = refl;
              has_key = ground (arith, eq_iff tenant.api_key_hash (sha256 key));
              is_active = ground arith;
            },
          )
    ]

-- The guard of a tenant's interface lets a request pass whose header holds the key of an active
-- tenant, which is the tenant that the handlers are given; it answers any other request with 401. It
-- changes nothing.
pub tenant_guard-decides :
    (db : Prisma)
    → IsLawful db
    → (sha256 : Text → String) (authorization : Option Text) (s : Db)
    → ((id : ℕ) × (tenant_guard db sha256 authorization s ≡ (ok id, s))
        × IsAuthenticated sha256 s authorization id)
      ⊎ ((message : String) × (tenant_guard db sha256 authorization s
            ≡ (err (http_exception 401 message), s)))
unfolding tenant_guard
tenant_guard-decides db law sha256 authorization s =
    rw (lawful-eq db law)
      (authenticate-decides sha256 authorization (match_authorization authorization) s refl)
