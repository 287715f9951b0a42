-- ===== src/Tenants/Creation.antt =====
-- The creation of a tenant in src/tenants/application/use-cases/create-tenant.use-case.ts.
use webhook_engine.Base.{
  ℕ, suc, ◌≡◌, refl, sym, subst, ap, ◌∙◌, Bool, Bool-cases, Option-cases, inl, inr, true, Option,
  none, some, List, [], ◌∷◌, ◌++◌, String, eq_iff, Text, find?, Error, Result, ok, err, M, pure,
  then_with, then_with-ok, settle-ok, ◌>>◌, then_with-keeps, IsAtomic, then_with-IsAtomic,
  settle-IsAtomic, pure-IsAtomic, IsAtomic-err, arith,
}
use webhook_engine.Prisma.{Prisma, IsLawful, reference, lawful-eq}
use webhook_engine.Schema.{Tenant, Endpoint, EndpointSubscription, Db}
use webhook_engine.Schema.Table
use webhook_engine.Endpoints.{EndpointInput, has_url, new_endpoint}
use webhook_engine.Security.Guards.{has_active_key, match_authorization, tenant_guard}
use webhook_engine.Tenants.Keys.{guard_passes}
use webhook_engine.Tenants.{
  CreateTenantCommand, CreateTenantInput, NewEndpoint, CreatedTenant, has_key_hash,
  same_subscription, new_tenant, create_subscriptions, create_endpoints, create_tenant_row, to_json,
}
use webhook_engine.Tenants.UseCases.{
  normalized, has_duplicates, with_secrets, create_with_urls, create_tenant, or_no_endpoints,
  checked,
}

module _ (assert_safe : String → Result String) where
  normalized_state :
      (db : Prisma) (now : ℕ) (es : List EndpointInput) (s : Db)
      → (normalized db now assert_safe es s).1 ≡ s
  unfolding normalized
  normalized_state db now [] s = refl
  normalized_state db now (e ∷ es) s =
      then_with-keeps (λ (t : Db). t ≡ s) _ (checked db now assert_safe e.url s) refl
        (λ url t _ h.
          then_with-keeps (λ (x : Db). x ≡ s) _ (normalized db now assert_safe es t)
            (normalized_state db now es t ∙ h) (λ rest x _ h'. h'))

  create_with_urls-IsAtomic :
      (now : ℕ) (sha256 : Text → String) (api_key : Text) (secret : ℕ → String)
      (command : CreateTenantCommand) (urls : List EndpointInput) (s : Db)
      → IsAtomic s (create_with_urls reference now assert_safe sha256 api_key secret command urls s)
  unfolding create_with_urls create_tenant_row
  create_with_urls-IsAtomic now sha256 api_key secret command urls s =
      elim (Bool-cases (has_duplicates urls)) [
        | inl twice ↦ rw twice refl
        | inr once ↦ rw once (pure-IsAtomic s _ _ (settle-IsAtomic s _))
      ]

  reference-IsAtomic :
      (now : ℕ) (sha256 : Text → String) (api_key : Text) (secret : ℕ → String)
      (command : CreateTenantCommand) (s : Db)
      → IsAtomic s (create_tenant reference now assert_safe sha256 api_key secret command s)
  unfolding create_tenant
  reference-IsAtomic now sha256 api_key secret command s =
      let es = or_no_endpoints command.endpoints in
      then_with-IsAtomic s _ (normalized reference now assert_safe es s)
        (normalized_state reference now es s)
        (λ urls. create_with_urls-IsAtomic now sha256 api_key secret command urls s)

  -- A creation that fails, on whatever branch, has changed nothing: no tenant is left without its
  -- endpoints, and no endpoint without its subscriptions.
  pub create_tenant-IsAtomic :
      (db : Prisma)
      → IsLawful db
      → (now : ℕ) (sha256 : Text → String) (api_key : Text) (secret : ℕ → String)
        (command : CreateTenantCommand) (s : Db) {e : Error} {t : Db}
      → create_tenant db now assert_safe sha256 api_key secret command s ≡ (err e, t)
      → t ≡ s
  create_tenant-IsAtomic db law now sha256 api_key secret command s h =
      IsAtomic-err s (create_tenant db now assert_safe sha256 api_key secret command s) h
        (rw (lawful-eq db law) (reference-IsAtomic now sha256 api_key secret command s))

-- A new row of another table leaves the tenants alone.
create_tenants :
    {A : Type 0} (t : Table.Table A) (clash : A → Bool) (a : A) (s : Db)
    → ((rows : List A) → (t.store rows s).tenants ≡ s.tenants)
    → (Table.create reference t clash a s).1.tenants ≡ s.tenants
create_tenants t clash a s keeps = elim (Option-cases (find? clash (t.rows s))) [
  | inl free ↦ rw (Table.create, free) (keeps (t.rows s ++ a ∷ []))
  | inr (_, taken) ↦ rw (Table.create, taken) refl
]

-- A row was created because no other clashes with it.
create-ok :
    {A : Type 0} (t : Table.Table A) (clash : A → Bool) (a : A) (s : Db) {b : A} {s' : Db}
    → Table.create reference t clash a s ≡ (ok b, s')
    → (b ≡ a) × (s' ≡ t.store (t.rows s ++ a ∷ []) s) × (find? clash (t.rows s) ≡ none)
create-ok t clash a s {b} {s'} h = elim (Option-cases (find? clash (t.rows s))) [
  | inl free ↦
      let h' : (ok a, t.store (t.rows s ++ a ∷ []) s) ≡ (ok b, s') = rw (Table.create, free) at h in
      (cc, cc, free)
  | inr (_, taken) ↦ let h' = rw (Table.create, taken) at h in absurd cc
]

module _ (now : ℕ) where
  create_subscriptions_tenants :
      (id : ℕ) (types : List String) (s : Db)
      → (create_subscriptions reference now id types s).1.tenants ≡ s.tenants
  unfolding create_subscriptions
  create_subscriptions_tenants id [] s = refl
  create_subscriptions_tenants id (type ∷ types) s =
      let row : EndpointSubscription = record { endpoint_id = id; event_type = type } in
      then_with-keeps (λ (v : Db). v.tenants ≡ s.tenants)
        (λ _. create_subscriptions reference now id types)
        (Table.create reference Table.endpoint_subscription (same_subscription row) row s)
        (create_tenants Table.endpoint_subscription (same_subscription row) row s (λ rows. refl))
        (λ _ v _ h. create_subscriptions_tenants id types v ∙ h)

  create_endpoints_tenants :
      (id : ℕ) (es : List NewEndpoint) (s : Db)
      → (create_endpoints reference now id es s).1.tenants ≡ s.tenants
  unfolding create_endpoints
  create_endpoints_tenants id [] s = refl
  create_endpoints_tenants id (e ∷ es) s =
      let fresh : Db = record s { next_id = suc s.next_id } in
      let row : Endpoint = new_endpoint now s.next_id id e.input e.secret_key in
      let clash = has_url id e.input.url in
      then_with-keeps (λ (v : Db). v.tenants ≡ s.tenants) _
        (Table.create reference Table.endpoint clash row fresh)
        (create_tenants Table.endpoint clash row fresh (λ rows. refl))
        (λ _ v _ h.
          then_with-keeps (λ (x : Db). x.tenants ≡ s.tenants)
            (λ _. create_endpoints reference now id es)
            (create_subscriptions reference now s.next_id e.input.event_types v)
            (create_subscriptions_tenants s.next_id e.input.event_types v ∙ h)
            (λ _ x _ h'. create_endpoints_tenants id es x ∙ h'))

  -- What a creation that returned has stored.
  create_tenant_row_stored :
      (input : CreateTenantInput) (s : Db) {tenant : Tenant} {t : Db}
      → create_tenant_row reference now input s ≡ (ok tenant, t)
      → (tenant ≡ new_tenant now s.next_id input)
        × (t.tenants ≡ s.tenants ++ new_tenant now s.next_id input ∷ [])
        × (find? (has_key_hash input.api_key_hash) s.tenants ≡ none)
  unfolding create_tenant_row
  create_tenant_row_stored input s {tenant} {t} h =
      let fresh : Db = record s { next_id = suc s.next_id } in
      let row = new_tenant now s.next_id input in
      let clash = has_key_hash input.api_key_hash in
      let made = Table.create reference Table.tenant clash row fresh in
      let k : Tenant → M Db Tenant =
        λ a. create_endpoints reference now s.next_id input.endpoints >> pure a in
      let (a, s1, created, rest) = then_with-ok k made (settle-ok s (then_with k made) h) in
      let (same, stored, free) = create-ok Table.tenant clash row fresh created in
      let (u, s2, nested, last) =
        then_with-ok (λ _. pure a) (create_endpoints reference now s.next_id input.endpoints s1)
          rest in
      let kept : s2.tenants ≡ s1.tenants =
        subst (λ (r : Result (Unit {0}) × Db). r.1.tenants ≡ s1.tenants) nested
          (create_endpoints_tenants s.next_id input.endpoints s1) in
      let whole : (ok a, s2) ≡ (ok tenant, t) = last in
      let tenants : s1.tenants ≡ s.tenants ++ row ∷ [] = ap (λ (x : Db). x.tenants) stored in
      let end : s2 ≡ t = cc in
      let ends : s2.tenants ≡ t.tenants = ap (λ (x : Db). x.tenants) end in
      (cc, sym ends ∙ (kept ∙ tenants), free)

module _ (assert_safe : String → Result String) where
  -- The stored row is the last one, and the first with its hash.
  find?-appended :
      (hash : String) (row : Tenant) (ts : List Tenant)
      → find? (has_key_hash hash) ts ≡ none
      → row.api_key_hash ≡ hash
      → row.is_active ≡ true
      → find? (has_active_key hash) (ts ++ row ∷ []) ≡ some row
  find?-appended hash row [] free same active = ground (arith, eq_iff row.api_key_hash hash)
  find?-appended hash row (t ∷ ts) free same active =
      ground (arith, eq_iff t.api_key_hash hash, find?-appended hash row ts)

  create_with_urls_stored :
      (now : ℕ) (sha256 : Text → String) (api_key : Text) (secret : ℕ → String)
      (command : CreateTenantCommand) (urls : List EndpointInput) (s : Db) {c : CreatedTenant}
      {t : Db}
      → create_with_urls reference now assert_safe sha256 api_key secret command urls s ≡ (ok c, t)
      → (row : Tenant) × (find? (has_active_key (sha256 api_key)) t.tenants ≡ some row)
        × (row.id ≡ c.tenant.id)
        × (c.api_key ≡ api_key)
  unfolding create_with_urls to_json
  create_with_urls_stored now sha256 api_key secret command urls s {c} {t} h =
      elim (Bool-cases (has_duplicates urls)) [
        | inl twice ↦ let h' = rw twice at h in absurd cc
        | inr once ↦
            let input : CreateTenantInput = record {
              name = command.name;
              api_key_hash = sha256 api_key;
              rate_limit = command.rate_limit;
              endpoints = with_secrets secret 0 urls;
            } in
            let answer : Tenant → CreatedTenant = λ tenant. record {
              tenant = to_json tenant;
              api_key = api_key;
              endpoints = with_secrets secret 0 urls;
            } in
            let h' : then_with (λ tenant. pure (answer tenant))
                  (create_tenant_row reference now input s)
                ≡ (ok c, t) =
              rw once at h in
            let (tenant, s1, made, last) =
              then_with-ok (λ tenant. pure (answer tenant))
                (create_tenant_row reference now input s) h' in
            let (same, stored, free) = create_tenant_row_stored now input s made in
            let row = new_tenant now s.next_id input in
            let whole : (ok (answer tenant), s1) ≡ (ok c, t) = last in
            let here : s1 ≡ t = cc in
            let answered : answer tenant ≡ c = cc in
            (
              row,
              subst (λ (x : List Tenant). find? (has_active_key (sha256 api_key)) x ≡ some row)
                  (sym stored ∙ ap (λ (x : Db). x.tenants) here)
                  (find?-appended (sha256 api_key) row s.tenants free refl refl),
              ap (λ (x : Tenant). x.id) (sym same)
                  ∙ ap (λ (x : CreatedTenant). x.tenant.id) answered,
              ap (λ (x : CreatedTenant). x.api_key) (sym answered),
            )
      ]

  -- The key in the answer to a creation passes the guard from then on, as the tenant that was created.
  pub create_tenant-Authenticates :
      (db : Prisma)
      → IsLawful db
      → (now : ℕ) (sha256 : Text → String) (api_key : Text) (secret : ℕ → String)
        (command : CreateTenantCommand) (authorization : Option Text) (s : Db) (c : CreatedTenant)
        (t : Db)
      → create_tenant db now assert_safe sha256 api_key secret command s ≡ (ok c, t)
      → match_authorization authorization ≡ some c.api_key
      → tenant_guard db sha256 authorization t ≡ (ok c.tenant.id, t)
  unfolding create_tenant
  create_tenant-Authenticates db law now sha256 api_key secret command authorization s c t h e =
      let h' : create_tenant reference now assert_safe sha256 api_key secret command s ≡ (ok c, t) =
        rw (lawful-eq db law) at h in
      let es = or_no_endpoints command.endpoints in
      let k = create_with_urls reference now assert_safe sha256 api_key secret command in
      let (urls, s1, _, rest) = then_with-ok k (normalized reference now assert_safe es s) h' in
      let (row, found, same, key) =
        create_with_urls_stored now sha256 api_key secret command urls s1 rest in
      rw (lawful-eq db law) (
        guard_passes sha256 authorization api_key t (e ∙ ap some key) found
        ∙ ap (λ (id : ℕ). (ok id, t)) same)
