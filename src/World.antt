-- ===== src/World.antt =====
-- The state that a handler sees: the database, the clock, the counters of this process, the state
-- of the services outside (Redis, the queue, the receivers of webhooks), and, for the theorems, the
-- list of the requests sent so far.
use webhook_engine.Base.{ℕ, List, String, Option, M, Result, ok}
use webhook_engine.Schema.{Db}
use webhook_engine.Metrics
use webhook_engine.Metrics.{Counters}

-- One webhook request: to where, the signed body, and the headers of the signer.
pub record Envelope : Type 0 where
  pub id : ℕ
  pub type : String
  pub version : String
  pub created_at : ℕ
  pub data' : List ℕ

pub record Headers : Type 0 where
  pub timestamp : String
  pub signature : String
  pub signature_previous : Option String

pub record Request : Type 0 where
  pub url : String
  pub payload : Envelope
  pub headers : Headers

pub record World (E : Type 0) : Type 0 where
  pub db : Db
  pub now : ℕ
  pub counters : Counters
  pub sent : List Request
  pub external : E

module _ {E A : Type 0} where
  abbrev with_db : World E → Result A × Db → Result A × World E
  with_db w (r, s) = (r, record w { db = s })

  -- A call of the database.
  abbrev pub on_db : M Db A → M (World E) A
  on_db m w = with_db w (m w.db)

  abbrev with_external : World E → Result A × E → Result A × World E
  with_external w (r, e) = (r, record w { external = e })

  abbrev pub on_external : M E A → M (World E) A
  on_external m w = with_external w (m w.external)

module _ {E : Type 0} where
  -- `Date.now()`
  abbrev pub clock : M (World E) ℕ
  clock w = (ok w.now, w)

  -- `metrics.increment(name, value)`
  abbrev pub increment_by : String → ℕ → M (World E) (Unit {0})
  increment_by name value w =
      (ok tt, record w { counters = Metrics.increment name value w.counters })

  abbrev pub increment : String → M (World E) (Unit {0})
  increment name = increment_by name 1
