-- ===== src/Listing/Arranged.antt =====
-- Rows in the order of their times, the newest first: what `orderBy: { createdAt: 'desc' }` of
-- src/events/infrastructure/persistence/prisma-events.repository.ts and
-- src/deliveries/infrastructure/persistence/prisma-deliveries.repository.ts asks of the database. Rows of
-- the same time may come in any order, and in another one with each query.
use mathlib.Core.List.{Permᴰ}
use mathlib.Core.List.Permᴰ
use webhook_engine.Base.{
  subst, ℕ, ◌≤◌, ◌≡◌, ◌≢◌, refl, sym, ap, ◌∙◌, ◌⊎◌, inl, inr, List, [], ◌∷◌, All, arith, length,
}

module _ {A : Type 0} where
  All-rearranged : (P : A → Type 0) {xs ys : List A} → Permᴰ xs ys → All P xs → All P ys
  All-rearranged P Permᴰ.nil h = tt
  All-rearranged P (Permᴰ.cons e r) (h, hs) = (subst P e h, All-rearranged P r hs)
  All-rearranged P (Permᴰ.swap e e') (h, (h', hs)) = (subst P e' h', (subst P e h, hs))
  All-rearranged P (Permᴰ.trans r r') h = All-rearranged P r' (All-rearranged P r h)

  pub length-rearranged : {xs ys : List A} → Permᴰ xs ys → length ys ≡ length xs
  length-rearranged Permᴰ.nil = refl
  length-rearranged (Permᴰ.cons e r) = omega (arith, length-rearranged r)
  length-rearranged (Permᴰ.swap e e') = refl
  length-rearranged (Permᴰ.trans r r') = length-rearranged r' ∙ length-rearranged r

  All-imp : (P Q : A → Type 0) (xs : List A) → All P xs → ((a : A) → P a → Q a) → All Q xs
  All-imp P Q [] h k = tt
  All-imp P Q (x ∷ xs) (h, hs) k = (k x h, All-imp P Q xs hs k)

  All-both : (P Q : A → Type 0) (xs : List A) → All P xs → All Q xs → All (λ a. P a × Q a) xs
  All-both P Q [] h k = tt
  All-both P Q (x ∷ xs) (h, hs) (k, ks) = ((h, k), All-both P Q xs hs ks)

module _ {A : Type 0} (time : A → ℕ) where
  abbrev pub IsNewestFirst : List A → Type 0
  IsNewestFirst [] = Unit
  IsNewestFirst (x ∷ xs) = All (λ y. time y ≤ time x) xs × IsNewestFirst xs

  abbrev pub HasDistinctTimes : List A → Type 0
  HasDistinctTimes [] = Unit
  HasDistinctTimes (x ∷ xs) = All (λ y. time y ≢ time x) xs × HasDistinctTimes xs

  HasDistinctTimes-rearranged :
      {xs ys : List A} → Permᴰ xs ys → HasDistinctTimes xs → HasDistinctTimes ys
  HasDistinctTimes-rearranged Permᴰ.nil h = tt
  HasDistinctTimes-rearranged (Permᴰ.cons {l₂ = ys} e r) (h, hs) = (
    subst (λ x. All (λ y. time y ≢ time x) ys) e (All-rearranged (λ y. time y ≢ time _) r h),
    HasDistinctTimes-rearranged r hs,
  )
  HasDistinctTimes-rearranged (Permᴰ.swap {l = l} e e') ((ne, h), (h', hs)) = (
    (
      λ k. ne (ap time e' ∙ (sym k ∙ ap time (sym e))),
      subst (λ x. All (λ y. time y ≢ time x) l) e' h',
    ),
    (subst (λ x. All (λ y. time y ≢ time x) l) e h, hs),
  )
  HasDistinctTimes-rearranged (Permᴰ.trans r r') h =
      HasDistinctTimes-rearranged r' (HasDistinctTimes-rearranged r h)

  -- The rows in the order that the query asks for.
  pub record IsArranged (rows xs : List A) : Type 0 where
    pub same_rows : Permᴰ rows xs
    pub newest_first : IsNewestFirst xs

  -- What holds of the rows behind the first, where the rows behind the other first hold the same.
  behind :
      (x y : A) (xs ys : List A)
      → y ≡ x
      → All (λ a. time a ≢ time y) ys
      → ((P : A → Type 0) → All P (x ∷ xs) → All P (y ∷ ys))
      → (P : A → Type 0) → All P xs
      → All P ys
  behind x y xs ys same distinct to P h =
      let (_, hs) = to (λ a. (a ≡ x) ⊎ P a) (inl refl, All-imp P _ xs h (λ a p. inr p)) in
      All-imp _ P ys (All-both _ _ ys hs distinct)
        (λ a (p, ne). elim p [ inl e ↦ absurd (ne (ap time (e ∙ sym same))) | inr p' ↦ p' ])

  newest_first_unique :
      (xs ys : List A)
      → IsNewestFirst xs
      → IsNewestFirst ys
      → HasDistinctTimes xs
      → HasDistinctTimes ys
      → ((P : A → Type 0) → All P xs → All P ys)
      → ((P : A → Type 0) → All P ys → All P xs)
      → xs ≡ ys
  newest_first_unique [] [] hx hy dx dy to from = refl
  newest_first_unique [] (y ∷ ys) hx hy dx dy to from = absurd (to (λ a. ⊥) tt).0
  newest_first_unique (x ∷ xs) [] hx hy dx dy to from = absurd (from (λ a. ⊥) tt).0
  newest_first_unique (x ∷ xs) (y ∷ ys) hx hy dx dy to from =
      let below : time y ≤ time x = (to (λ a. time a ≤ time x) (omega arith, hx.0)).0 in
      let above : time x ≤ time y = (from (λ a. time a ≤ time y) (omega arith, hy.0)).0 in
      let only : time y ≡ time x → y ≡ x =
        (to (λ a. time a ≡ time x → a ≡ x)
          (λ e. refl, All-imp _ _ xs dx.0 (λ a ne e. absurd (ne e)))).0 in
      let same : y ≡ x = only (omega arith) in
      ap (λ z. z ∷ xs) (sym same)
      ∙ ap (λ zs. y ∷ zs)
          (newest_first_unique xs ys hx.1 hy.1 dx.1 dy.1 (behind x y xs ys same dy.0 to)
            (behind y x ys xs (sym same) dx.0 from))

  -- Where times are distinct, there is one arrangement only.
  pub IsArranged-unique :
      (rows xs ys : List A)
      → HasDistinctTimes rows
      → IsArranged rows xs
      → IsArranged rows ys
      → xs ≡ ys
  IsArranged-unique rows xs ys d hx hy =
      let there = Permᴰ.trans (Permᴰ.symm hx.same_rows) hy.same_rows in
      newest_first_unique xs ys hx.newest_first hy.newest_first
        (HasDistinctTimes-rearranged hx.same_rows d) (HasDistinctTimes-rearranged hy.same_rows d)
        (λ P. All-rearranged P there) (λ P. All-rearranged P (Permᴰ.symm there))
