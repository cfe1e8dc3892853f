-- ===== src/FxBacktest/Rollover/Sorting.antt =====
-- `sorted`, as crossings_between (src/fx/backtesting/costs.py) calls it.
use tradingia.Prelude.{
  ℕ, ◌<◌, leb, true, false, List, [], ◌∷◌, ◌≡◌, refl, ap, ◌∙◌, ◌⊎◌, inl, inr, Bool-cases, All,
  arith,
}
use tradingia.Prelude.Increasing.{Has, Distinct, Increasing, All-of, All-Has}
use tradingia.FxBacktest.Rollover.{insert_sorted, sorted}

insert_before : (x y : ℕ) (ys : List ℕ) → leb x y ≡ true → insert_sorted x (y ∷ ys) ≡ x ∷ y ∷ ys
unfolding insert_sorted
insert_before x y ys e = rw e refl

insert_after :
    (x y : ℕ) (ys : List ℕ) → leb x y ≡ false → insert_sorted x (y ∷ ys) ≡ y ∷ insert_sorted x ys
unfolding insert_sorted
insert_after x y ys e = rw e refl

Has-insert_sorted : (t x : ℕ) (ys : List ℕ) → (t ≡ x) ⊎ Has t ys → Has t (insert_sorted x ys)
unfolding insert_sorted
Has-insert_sorted t x [] m = m
Has-insert_sorted t x (y ∷ ys) m = elim (Bool-cases (leb x y)) [
  | inl e ↦ rw (insert_before x y ys e) m
  | inr e ↦ rw (insert_after x y ys e) (elim m [
    | inl same ↦ inr (Has-insert_sorted t x ys (inl same))
    | inr k ↦ elim k [ inl same ↦ inl same | inr k' ↦ inr (Has-insert_sorted t x ys (inr k')) ]
  ])
]

insert_sorted-cases : (t x : ℕ) (ys : List ℕ) → Has t (insert_sorted x ys) → (t ≡ x) ⊎ Has t ys
unfolding insert_sorted
insert_sorted-cases t x [] m = m
insert_sorted-cases t x (y ∷ ys) m = elim (Bool-cases (leb x y)) [
  | inl e ↦ rw (insert_before x y ys e) at m
  | inr e ↦ elim (rw (insert_after x y ys e) at m) [
    | inl same ↦ inr (inl same)
    | inr k ↦ elim (insert_sorted-cases t x ys k) [ inl same ↦ inl same | inr k' ↦ inr (inr k') ]
  ]
]

pub sorted-Has : (t : ℕ) (xs : List ℕ) → Has t (sorted xs) → Has t xs
unfolding sorted
sorted-Has t [] m = m
sorted-Has t (x ∷ xs) m = elim (insert_sorted-cases t x (sorted xs) m) [
  | inl e ↦ inl e
  | inr k ↦ inr (sorted-Has t xs k)
]

pub Has-sorted : (t : ℕ) (xs : List ℕ) → Has t xs → Has t (sorted xs)
unfolding sorted
Has-sorted t [] m = m
Has-sorted t (x ∷ xs) (inl e) = Has-insert_sorted t x (sorted xs) (inl e)
Has-sorted t (x ∷ xs) (inr m) = Has-insert_sorted t x (sorted xs) (inr (Has-sorted t xs m))

insert_sorted-Increasing :
    (x : ℕ) (ys : List ℕ) → (Has x ys → ⊥) → Increasing ys → Increasing (insert_sorted x ys)
unfolding insert_sorted
insert_sorted-Increasing x [] new h = (tt, tt)
insert_sorted-Increasing x (y ∷ ys) new (above, h) = elim (Bool-cases (leb x y)) [
  | inl e ↦
      let first : x < y = elim (apart x y e) [
        | inl same ↦ absurd (new (inl same))
        | inr less ↦ less
      ] in
      rw (insert_before x y ys e)
        ((first, All-of _ ys λ t m. omega (arith, first, All-Has _ ys t above m)), (above, h))
  | inr e ↦ rw (insert_after x y ys e) (
    All-of _ (insert_sorted x ys) (λ t m. elim (insert_sorted-cases t x ys m) [
      | inl same ↦ after x y t e same
      | inr k ↦ All-Has _ ys t above k
    ]),
    insert_sorted-Increasing x ys (λ m. new (inr m)) h,
  )
]
  where
    apart : (x y : ℕ) → leb x y ≡ true → (x ≡ y) ⊎ (x < y)
    apart x y e = ground arith

    after : (x y t : ℕ) → leb x y ≡ false → t ≡ x → y < t
    after x y t e same = ground arith

pub sorted-Increasing : (xs : List ℕ) → Distinct xs → Increasing (sorted xs)
unfolding sorted
sorted-Increasing [] d = tt
sorted-Increasing (x ∷ xs) (new, d) =
    insert_sorted-Increasing x (sorted xs) (λ m. new (sorted-Has x xs m)) (sorted-Increasing xs d)

-- what increases is in order already
insert_least : (x : ℕ) (ys : List ℕ) → All (λ y. x < y) ys → insert_sorted x ys ≡ x ∷ ys
unfolding insert_sorted
insert_least x [] h = refl
insert_least x (y ∷ ys) (less, h) = insert_before x y ys (ground arith)

pub Increasing-sorted : (xs : List ℕ) → Increasing xs → sorted xs ≡ xs
unfolding sorted
Increasing-sorted [] h = refl
Increasing-sorted (x ∷ xs) (above, h) =
    ap (insert_sorted x) (Increasing-sorted xs h) ∙ insert_least x xs above
