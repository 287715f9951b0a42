-- ===== src/Base/Effect.antt =====
-- Effects: a step takes a state to a result and the next state, and the state survives a failure.
-- Failures are the values that the TypeScript code throws.
use Prim.Native.Nat.{ℕ}
use Prim.Native.String.{String}
use mathlib.Core.Path.{◌≡◌, refl, sym, subst}
use mathlib.Core.Option.{Option}
use webhook_engine.Base.CodeUnits.{Text}

-- `data` of an HTTP response: a string, or the serialised form of any other value.
pub data Body : Type 0 where
  string_body json_body : Text → Body

-- What the code reads of a rejected request: `response.status`, `response.data` (`none` for an
-- absent, null, false or zero value), the `retry-after` header, and the error's own fields.
pub record RequestError : Type 0 where
  pub response_status : Option ℕ
  pub response_data : Option Body
  pub retry_after : Option String
  pub error_status : Option ℕ
  pub error_message : Option Text

pub data Error : Type 0 where
  request_error : RequestError → Error
  -- a unique constraint (P2002), a missing record (P2025)
  p2002 p2025 : Error
  tenant_not_found : Error
  -- an `HttpException` of the framework: its status and its message
  http_exception : ℕ → String → Error
  other_error : Text → Error

pub data Result {ℓ} (A : Type ℓ) : Type ℓ where
  ok : A → Result A
  err : Error → Result A

abbrev pub M : Type 0 → Type 0 → Type 0
M S A = S → Result A × S

module _ {S A : Type 0} where
  abbrev pub pure : A → M S A
  pure a s = (ok a, s)

  abbrev pub throw : Error → M S A
  throw e s = (err e, s)

  -- `try { m } catch (e) { h(e) }`: what `m` did before it failed stays done.
  abbrev pub caught : (Error → M S A) → Result A × S → Result A × S
  caught h (ok a, s) = (ok a, s)
  caught h (err e, s) = h e s

  abbrev pub try_catch : M S A → (Error → M S A) → M S A
  try_catch m h s = caught h (m s)

  -- A transaction that fails leaves the state as it was.
  abbrev pub settle : S → Result A × S → Result A × S
  settle before (ok a, s) = (ok a, s)
  settle before (err e, s) = (err e, before)

  -- The state after a step, whether it failed or not.
  abbrev pub final : M S A → S → S
  final m s = (m s).1

-- What holds before a transaction and after its callback holds after the transaction.
pub settle-keeps {κ} :
    {S A : Type 0} (P : S → Type κ) (before : S) (r : Result A × S)
    → P before
    → P r.1
    → P (settle before r).1
settle-keeps P before (ok a, s) h h' = h'
settle-keeps P before (err e, s) h h' = h

module _ {S A B : Type 0} where
  abbrev pub then_with : (A → M S B) → Result A × S → Result B × S
  then_with f (ok a, s) = f a s
  then_with f (err e, s) = (err e, s)

infixl 5 ◌>>=◌ ◌>>◌
abbrev pub ◌>>=◌ : {S A B : Type 0} → M S A → (A → M S B) → M S B
◌>>=◌ m f s = then_with f (m s)

abbrev pub ◌>>◌ : {S B : Type 0} → M S (Unit {0}) → M S B → M S B
◌>>◌ m k s = then_with (λ _. k) (m s)

-- What a step reaches, and what its continuation keeps from there, is kept by both together.
pub then_with-keeps {κ} :
    {S A B : Type 0} (P : S → Type κ) (f : A → M S B) (r : Result A × S)
    → P r.1
    → ((a : A) (s : S) → r ≡ (ok a, s) → P s → P (final (f a) s))
    → P (then_with f r).1
then_with-keeps P f (ok a, s) h k = k a s refl h
then_with-keeps P f (err e, s) h k = h

pub caught-keeps {κ} :
    {S A : Type 0} (P : S → Type κ) (f : Error → M S A) (r : Result A × S)
    → P r.1
    → ((e : Error) (s : S) → r ≡ (err e, s) → P s → P (final (f e) s))
    → P (caught f r).1
caught-keeps P f (ok a, s) h k = h
caught-keeps P f (err e, s) h k = k e s refl h

-- A transaction that fails has changed nothing.
pub settle-err :
    {S A : Type 0} (s : S) (r : Result A × S) {e : Error} {t : S} → settle s r ≡ (err e, t) → t ≡ s
settle-err s (ok a, s') h = absurd cc
settle-err s (err e, s') h = cc

-- A transaction that returns has done what its callback did.
pub settle-ok :
    {S A : Type 0} (s : S) (r : Result A × S) {a : A} {t : S}
    → settle s r ≡ (ok a, t)
    → r ≡ (ok a, t)
settle-ok s (ok a, s') h = h
settle-ok s (err e, s') h = absurd cc

-- What holds of the value that a step returns, if it returns one.
abbrev pub Ensures {κ} : {S A : Type 0} → (A → Type κ) → Result A × S → Type κ
Ensures Q (ok a, s) = Q a
Ensures Q (err e, s) = Unit

pub then_with-Ensures {κ} :
    {S A B : Type 0} (Q : A → Type κ) (R : B → Type κ) (f : A → M S B) (r : Result A × S)
    → Ensures Q r
    → ((a : A) (s : S) → Q a → Ensures R (f a s))
    → Ensures R (then_with f r)
then_with-Ensures Q R f (ok a, s) h k = k a s h
then_with-Ensures Q R f (err e, s) h k = tt

pub Ensures-ok {κ} :
    {S A : Type 0} (Q : A → Type κ) (r : Result A × S) {a : A} {s : S}
    → r ≡ (ok a, s)
    → Ensures Q r
    → Q a
Ensures-ok Q r e h = subst (Ensures Q) e h

-- A chain that returns has gone through both of its steps.
pub then_with-ok :
    {S A B : Type 0} (f : A → M S B) (r : Result A × S) {b : B} {t : S}
    → then_with f r ≡ (ok b, t)
    → (a : A) × (s : S) × (r ≡ (ok a, s)) × (f a s ≡ (ok b, t))
then_with-ok f (ok a, s) h = (a, s, refl, h)
then_with-ok f (err e, s) h = absurd cc

-- The step fails only with the state as it was.
abbrev pub IsAtomic : {S A : Type 0} → S → Result A × S → Type 0
IsAtomic s (ok a, t) = Unit
IsAtomic s (err e, t) = t ≡ s

pub then_with-IsAtomic :
    {S A B : Type 0} (s : S) (f : A → M S B) (r : Result A × S)
    → r.1 ≡ s
    → ((a : A) → IsAtomic s (f a s))
    → IsAtomic s (then_with f r)
then_with-IsAtomic {S} s f (ok a, t) e h = subst (λ (x : S). IsAtomic s (f a x)) (sym e) (h a)
then_with-IsAtomic s f (err e, t) h k = h

pub settle-IsAtomic : {S A : Type 0} (s : S) (r : Result A × S) → IsAtomic s (settle s r)
settle-IsAtomic s (ok a, t) = tt
settle-IsAtomic s (err e, t) = refl

pub IsAtomic-err :
    {S A : Type 0} (s : S) (r : Result A × S) {e : Error} {t : S}
    → r ≡ (err e, t)
    → IsAtomic s r
    → t ≡ s
IsAtomic-err s r e h = subst (IsAtomic s) e h

pub pure-IsAtomic :
    {S A B : Type 0} (s : S) (g : A → B) (r : Result A × S)
    → IsAtomic s r
    → IsAtomic s (then_with (λ a. pure (g a)) r)
pure-IsAtomic s g (ok a, t) h = tt
pure-IsAtomic s g (err e, t) h = h
