-- ===== src/Listing/Walk.antt =====
-- Walking through the pages of a list: what `skip`, `take` and `pagination` of the two `findAll` give
-- together.
use native.Mathlib.Nat.{lt-mul-div-succ}
use webhook_engine.Base.{
  subst, ℕ, zero, suc, ◌+◌, ◌-◌, ◌*◌, ◌≤◌, ◌<◌, ◌≡◌, refl, sym, ap, ◌∙◌, List, [], ◌∷◌, ◌++◌, map,
  length, take, drop, arith,
}
use webhook_engine.Listing.{pagination, page_of}
use webhook_engine.Listing.Arranged.{
  HasDistinctTimes, IsArranged, IsArranged-unique, length-rearranged,
}

enough_pages :
    (limit total : ℕ) → 0 < limit → total ≤ (pagination 1 limit total).total_pages * limit
unfolding pagination
enough_pages limit total pos = omega (arith, lt-mul-div-succ (total + limit - 1) pos)

module _ {A : Type 0} where
  take_nil : (n : ℕ) → take {A = A} n [] ≡ []
  take_nil zero = refl
  take_nil (suc n) = refl

  take-append-drop : (a b : ℕ) (xs : List A) → take a xs ++ take b (drop a xs) ≡ take (a + b) xs
  take-append-drop zero b xs = ap (λ n. take n xs) (omega arith)
  take-append-drop (suc a) b [] = take_nil b ∙ sym (take_nil (suc a + b))
  take-append-drop (suc a) b (x ∷ xs) =
      let e : suc (a + b) ≡ suc a + b = omega arith in
      ap (λ ys. x ∷ ys) (take-append-drop a b xs) ∙ ap (λ n. take n (x ∷ xs)) e

  take_all : (n : ℕ) (xs : List A) → length xs ≤ n → take n xs ≡ xs
  take_all zero [] h = refl
  take_all zero (x ∷ xs) h = absurd (omega arith)
  take_all (suc n) [] h = refl
  take_all (suc n) (x ∷ xs) h = ap (λ ys. x ∷ ys) (take_all n xs (omega arith))

  -- The pages 1 to n, one after the other.
  abbrev pub walk : (ℕ → List A) → ℕ → List A
  walk page zero = []
  walk page (suc n) = walk page n ++ page (suc n)

  walk_pages : (n limit : ℕ) (xs : List A) → walk (λ p. page_of p limit xs) n ≡ take (n * limit) xs
  unfolding page_of
  walk_pages zero limit xs = let e : 0 ≡ 0 * limit = omega arith in ap (λ n. take n xs) e
  walk_pages (suc n) limit xs =
      let start : suc n - 1 ≡ n = omega arith in
      let e : n * limit + limit ≡ suc n * limit = omega arith in
      rw (walk_pages n limit xs, start)
        (take-append-drop (n * limit) limit xs ∙ ap (λ k. take k xs) e)

  walk-congr : (f g : ℕ → List A) (n : ℕ) → ((p : ℕ) → f p ≡ g p) → walk f n ≡ walk g n
  walk-congr f g zero h = refl
  walk-congr f g (suc n) h = rw (walk-congr f g n h, h (suc n))

  walk_all :
      (limit total : ℕ) (xs : List A)
      → 0 < limit
      → length xs ≤ total
      → walk (λ p. page_of p limit xs) (pagination 1 limit total).total_pages ≡ xs
  walk_all limit total xs pos h =
      let n = (pagination 1 limit total).total_pages in
      let enough = enough_pages limit total pos in
      walk_pages n limit xs ∙ take_all (n * limit) xs (omega arith)

map-append : {A B : Type 0} (f : A → B) (xs ys : List A) → map f (xs ++ ys) ≡ map f xs ++ map f ys
map-append f [] ys = refl
map-append f (x ∷ xs) ys = ap (λ zs. f x ∷ zs) (map-append f xs ys)

map-walk :
    {A B : Type 0} (f : A → B) (page : ℕ → List A) (n : ℕ)
    → walk (λ p. map f (page p)) n ≡ map f (walk page n)
map-walk f page zero = refl
map-walk f page (suc n) = rw (map-walk f page n) (sym (map-append f (walk page n) (page (suc n))))

map_inverse :
    {A B : Type 0} (f : A → B) (g : B → A) (xs : List A)
    → ((a : A) → g (f a) ≡ a)
    → map g (map f xs) ≡ xs
map_inverse f g [] h = refl
map_inverse f g (x ∷ xs) h = rw (h x, map_inverse f g xs h)

-- The pages of views of the rows, without the views, are the rows.
walk_views :
    {A B : Type 0} (f : A → B) (g : B → A) (limit total : ℕ) (xs : List A)
    → ((a : A) → g (f a) ≡ a)
    → 0 < limit
    → length xs ≤ total
    → map g (walk (λ p. map f (page_of p limit xs)) (pagination 1 limit total).total_pages) ≡ xs
walk_views f g limit total xs h pos le =
    let n = (pagination 1 limit total).total_pages in
    ap (λ ys. map g ys) (map-walk f (λ p. page_of p limit xs) n)
    ∙ map_inverse f g (walk (λ p. page_of p limit xs) n) h
    ∙ walk_all limit total xs pos le

-- The pages of views, where each query may arrange the rows anew, but in one way only.
pub walk-IsArranged :
    {A B : Type 0} (f : A → B) (g : B → A) (time : A → ℕ) (limit : ℕ) (rows : List A)
    (order : ℕ → List A)
    → ((a : A) → g (f a) ≡ a)
    → 0 < limit
    → HasDistinctTimes time rows
    → ((page : ℕ) → IsArranged time rows (order page))
    → IsArranged time rows (
        map g (
          walk
            (λ p. map f (page_of p limit (order p)))
            (pagination 1 limit (length rows)).total_pages))
walk-IsArranged f g time limit rows order inverse pos distinct arranged =
    let n = (pagination 1 limit (length rows)).total_pages in
    let same =
      walk-congr (λ p. map f (page_of p limit (order p))) (λ p. map f (page_of p limit (order 1))) n
        (λ p.
          ap (λ xs. map f (page_of p limit xs))
            (IsArranged-unique time rows (order p) (order 1) distinct (arranged p) (arranged 1))) in
    let short : length (order 1) ≡ length rows = length-rearranged ((arranged 1).same_rows) in
    subst (IsArranged time rows)
      (sym (
        ap (map g) same
        ∙ walk_views f g limit (length rows) (order 1) inverse pos (omega (arith, short))))
      (arranged 1)
