-- ===== src/Prisma.antt =====
-- The database client (Prisma over PostgreSQL), which is not part of the repository: its calls are
-- parameters of the model, and `IsLawful` states their documented behaviour on the rows of a table.
-- A table is the list of its rows in the order in which the database returns them.
use webhook_engine.Base.{
  ℕ, ◌≡◌, refl, Bool, not, Option, List, ◌++◌, M, settle, find?, filter, patch, count,
}

pub record Prisma : Type 1 where
  -- findUnique, findFirst: `null` if no row passes the test
  pub find_first : {A : Type 0} → (A → Bool) → List A → Option A
  -- findMany
  pub find_many : {A : Type 0} → (A → Bool) → List A → List A
  -- updateMany: the rows afterwards, and the number of rows changed
  pub update_many : {A : Type 0} → (A → Bool) → (A → A) → List A → List A × ℕ
  -- createMany and, for a row with no unique constraint at stake, create
  pub create_many : {A : Type 0} → List A → List A → List A
  pub delete_many : {A : Type 0} → (A → Bool) → List A → List A
  -- $transaction: the callback's effects, or none of them if it throws
  pub transaction : {S A : Type 0} → M S A → M S A

pub record IsLawful (db : Prisma) : Type 1 where
  pub find_first : {A : Type 0} (p : A → Bool) (rows : List A) → db.find_first p rows ≡ find? p rows
  pub find_many : {A : Type 0} (p : A → Bool) (rows : List A) → db.find_many p rows ≡ filter p rows
  pub update_many :
      {A : Type 0} (p : A → Bool) (f : A → A) (rows : List A)
      → db.update_many p f rows ≡ (patch p f rows, count p rows)
  pub create_many : {A : Type 0} (new rows : List A) → db.create_many new rows ≡ rows ++ new
  pub delete_many :
      {A : Type 0} (p : A → Bool) (rows : List A)
      → db.delete_many p rows ≡ filter (λ a. not (p a)) rows
  pub transaction : {S A : Type 0} (m : M S A) (s : S) → db.transaction m s ≡ settle s (m s)

-- The behaviour that the laws describe, as functions on lists.
abbrev pub reference : Prisma
reference = record {
  find_first = find?;
  find_many = filter;
  update_many = λ p f rows. (patch p f rows, count p rows);
  create_many = λ new rows. rows ++ new;
  delete_many = λ p. filter (λ a. not (p a));
  transaction = λ m s. settle s (m s);
}

pub reference-IsLawful : IsLawful reference
reference-IsLawful = record {
  find_first = λ p rows. refl;
  find_many = λ p rows. refl;
  update_many = λ p f rows. refl;
  create_many = λ new rows. refl;
  delete_many = λ p rows. refl;
  transaction = λ m s. refl;
}

-- Lawful clients are all equal, so a statement about the reference holds of each of them.
pub lawful-eq : (db : Prisma) → IsLawful db → db ≡ reference
lawful-eq db h = λ i. record {
  find_first = λ p rows. h.find_first p rows i;
  find_many = λ p rows. h.find_many p rows i;
  update_many = λ p f rows. h.update_many p f rows i;
  create_many = λ new rows. h.create_many new rows i;
  delete_many = λ p rows. h.delete_many p rows i;
  transaction = λ m s. h.transaction m s i;
}
