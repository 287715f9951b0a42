-- ===== src/Invariant/Lifecycle.antt =====
-- The life of a delivery, as an abstract machine on its status and the number of its attempts, and the
-- rows of the table `Delivery` as many such machines side by side, in the order of the rows, with new
-- ones at the end.
pub mod Operations
pub mod Refinement
use webhook_engine.Base.{
  ne→eqb, eq_self, find?-holds, ◌∙◌, ℕ, ◌+◌, ◌≡◌, ◌≢◌, refl, subst, sym, true, false, Bool,
  Bool-cases, inl, inr, List, [], ◌∷◌, ◌++◌, if◌then◌else◌, some, find?, patch, All, All-find?,
  arith,
}
use webhook_engine.Schema.{DeliveryStatus, Delivery, is_success}
use webhook_engine.Dispatcher.Policy.{is_unfinished}
use webhook_engine.Dispatcher.Repository.{has_id, is_claimable}
use webhook_engine.Invariant.Summary.{HasDistinctIds}

abbrev pub Life : Type 0
Life = DeliveryStatus × ℕ

abbrev pub life : Delivery → Life
life d = (d.status, d.attempts)

-- What an operation of the engine is to the deliveries: a claim of one for the attempt of a number, its
-- end in a status, its return to a status that can be claimed, its reset, or nothing.
pub data Action : Type 0 where
  claim : (id attempt : ℕ) → Action
  finish : (id : ℕ) (end : DeliveryStatus) → Action
  postpone : (id : ℕ) (next : DeliveryStatus) → Action
  reset : (id : ℕ) → Action
  leave : Action

-- The moves that an action allows the delivery of an identifier: to stay as it is, or, if it is the one
-- that the action names, to be claimed from PENDING or FAILED for the attempt after its last one, to take
-- the action's status with its attempts kept, or to wait as PENDING with none.
pub data Move (id : ℕ) : Action → Life → Life → Type 0 where
  stay : (a : Action) (l : Life) → Move id a l l
  claim :
      (st : DeliveryStatus) (n : ℕ)
      → is_claimable st ≡ true
      → Move id (Action.claim id (n + 1)) (st, n) (DeliveryStatus.processing, n + 1)
  finish :
      (st end : DeliveryStatus) (n : ℕ)
      → is_unfinished end ≡ false
      → Move id (Action.finish id end) (st, n) (end, n)
  postpone :
      (st next : DeliveryStatus) (n : ℕ)
      → is_claimable next ≡ true
      → Move id (Action.postpone id next) (st, n) (next, n)
  reset :
      (st : DeliveryStatus) (n : ℕ) → Move id (Action.reset id) (st, n) (DeliveryStatus.pending, 0)

-- A run of the machine: one move for each of the actions.
pub data Run (id : ℕ) (l : Life) : List Action → Life → Type 0 where
  begin : Run id l [] l
  and_then :
      {acts : List Action} {a : Action} {m n : Life}
      → Run id l acts m
      → Move id a m n
      → Run id l (a ∷ acts) n

module _ (R : Delivery → Delivery → Type 0) where
  -- Each row is related to the row at its place.
  abbrev pub Refines : List Delivery → List Delivery → Type 0
  Refines [] ts = Unit
  Refines (d ∷ ds) [] = ⊥
  Refines (d ∷ ds) (t ∷ ts) = R d t × Refines ds ts

  module _ (same : (d : Delivery) → R d d) where
    pub Refines-append : (ds new : List Delivery) → Refines ds (ds ++ new)
    Refines-append [] new = tt
    Refines-append (d ∷ ds) new = (same d, Refines-append ds new)

    pub Refines-self : (ds : List Delivery) → Refines ds ds
    Refines-self [] = tt
    Refines-self (d ∷ ds) = (same d, Refines-self ds)

    pub Refines-patch :
        (p : Delivery → Bool) (f : Delivery → Delivery) (ds : List Delivery)
        → ((d : Delivery) → p d ≡ true → R d (f d))
        → Refines ds (patch p f ds)
    Refines-patch p f [] moved = tt
    Refines-patch p f (d ∷ ds) moved = (
      elim (Bool-cases (p d)) [ inl hit ↦ rw hit (moved d hit) | inr miss ↦ rw miss (same d) ],
      Refines-patch p f ds moved,
    )

-- A row moves by an action, and keeps its identifier.
abbrev pub Moved : Action → Delivery → Delivery → Type 0
Moved a d t = (t.id ≡ d.id) × Move d.id a (life d) (life t)

-- A row lived through a list of actions, the last of them first.
abbrev pub HasLived : List Action → Delivery → Delivery → Type 0
HasLived acts d t = (t.id ≡ d.id) × Run d.id (life d) acts (life t)

pub Refines-then :
    (a : Action) (acts : List Action) (ds ts us : List Delivery)
    → Refines (HasLived acts) ds ts
    → Refines (Moved a) ts us
    → Refines (HasLived (a ∷ acts)) ds us
Refines-then a acts [] ts us h k = tt
Refines-then a acts (d ∷ ds) [] us h k = absurd h
Refines-then a acts (d ∷ ds) (t ∷ ts) [] h k = absurd k
Refines-then a acts (d ∷ ds) (t ∷ ts) (u ∷ us) ((e, h), hs) ((e', k), ks) = (
  (e' ∙ e, and_then h (subst (λ (n : ℕ). Move n a (life t) (life u)) e k)),
  Refines-then a acts ds ts us hs ks,
)
