-- ===== src/Endpoints/UseCases.antt =====
-- src/endpoints/application/use-cases. `assert_safe` is `assertSafeWebhookUrl` under the settings of the
-- process; a generated secret is an argument.
use webhook_engine.Base.{
  ℕ, ◌+◌, if◌then◌else◌, Option, none, some, String, str_eq, Error, p2002, http_exception, Result,
  M, pure, throw, try_catch, ◌>>=◌, ◌>>◌,
}
use webhook_engine.Prisma.{Prisma}
use webhook_engine.Schema.{Db}
use webhook_engine.Events.Maintenance.{day}
use webhook_engine.Endpoints.{
  EndpointInput, EndpointUpdate, EndpointSummary, require_owned_endpoint, create_endpoint_row,
  update_endpoint_row, soft_delete, rotate_secret,
}

module _ (db : Prisma) (now : ℕ) where
  unfoldable pub conflict : Error → M Db (EndpointSummary × String)
  conflict p2002 = throw (http_exception 409 "This endpoint URL already exists")
  conflict error = throw error

  module _ (assert_safe : String → Result String) where
    abbrev checked : String → M Db String
    checked url s = (assert_safe url, s)

    unfoldable pub create_endpoint : String → ℕ → EndpointInput → M Db (EndpointSummary × String)
    unfolding create_endpoint_row conflict
    create_endpoint secret_key tenant_id input = do
      url ← checked input.url
      try_catch
          (do
            e ← create_endpoint_row db now tenant_id (record input { url = url }) secret_key
            pure (e, secret_key))
          conflict

    -- `if (input.url) { … }`
    unfoldable pub with_checked_url : EndpointUpdate → Option String → M Db EndpointUpdate
    with_checked_url input none = pure input
    with_checked_url input (some url) =
        if str_eq url ""
        then pure input
        else (do safe ← checked url; pure (record input { url = some safe }))

    unfoldable pub update_endpoint : ℕ → ℕ → EndpointUpdate → M Db EndpointSummary
    unfolding require_owned_endpoint with_checked_url update_endpoint_row
    update_endpoint tenant_id id input = do
      require_owned_endpoint db tenant_id id
      safe ← with_checked_url input input.url
      update_endpoint_row db now tenant_id id safe

  unfoldable pub delete_endpoint : ℕ → ℕ → M Db (Unit {0})
  unfolding require_owned_endpoint soft_delete
  delete_endpoint tenant_id id = do require_owned_endpoint db tenant_id id; soft_delete db now id

  unfoldable pub rotate_endpoint_secret : String → ℕ → ℕ → M Db (ℕ × String × ℕ)
  unfolding require_owned_endpoint rotate_secret
  rotate_endpoint_secret secret_key tenant_id id = do
    require_owned_endpoint db tenant_id id
    rotate_secret db now id secret_key (now + day)
    pure (id, secret_key, now + day)
