-- ===== src/Prelude/Increasing.antt =====
-- Increasing lists of numbers, which are equal when they have the same members.
use Prim.Native.Nat.{ℕ, ◌<◌}
use mathlib.Core.Path.{◌≡◌, refl, sym}
use mathlib.Core.Logic.{◌⊎◌, inl, inr}
use mathlib.Core.List.{List, [], ◌∷◌, ◌++◌}
use native.Mathlib.Omega.{arith}
use tradingia.Prelude.Lists.{All}

abbrev pub Has : ℕ → List ℕ → Type 0
Has t [] = ⊥
Has t (x ∷ xs) = (t ≡ x) ⊎ Has t xs

abbrev pub Distinct : List ℕ → Type 0
Distinct [] = Unit
Distinct (x ∷ xs) = (Has x xs → ⊥) × Distinct xs

abbrev pub Increasing : List ℕ → Type 0
Increasing [] = Unit
Increasing (x ∷ xs) = All (λ y. x < y) xs × Increasing xs

pub All-Has {κ} : (P : ℕ → Type κ) (xs : List ℕ) (t : ℕ) → All P xs → Has t xs → P t
All-Has P [] t h m = absurd m
All-Has P (x ∷ xs) t (p, h) (inl e) = rw e p
All-Has P (x ∷ xs) t (p, h) (inr m) = All-Has P xs t h m

pub All-of {κ} : (P : ℕ → Type κ) (xs : List ℕ) → ((t : ℕ) → Has t xs → P t) → All P xs
All-of P [] f = tt
All-of P (x ∷ xs) f = (f x (inl refl), All-of P xs λ t m. f t (inr m))

pub Has-append_left : (t : ℕ) (xs ys : List ℕ) → Has t xs → Has t (xs ++ ys)
Has-append_left t [] ys m = absurd m
Has-append_left t (x ∷ xs) ys (inl e) = inl e
Has-append_left t (x ∷ xs) ys (inr m) = inr (Has-append_left t xs ys m)

pub Has-append_right : (t : ℕ) (xs ys : List ℕ) → Has t ys → Has t (xs ++ ys)
Has-append_right t [] ys m = m
Has-append_right t (x ∷ xs) ys m = inr (Has-append_right t xs ys m)

pub append-cases : (t : ℕ) (xs ys : List ℕ) → Has t (xs ++ ys) → Has t xs ⊎ Has t ys
append-cases t [] ys m = inr m
append-cases t (x ∷ xs) ys (inl e) = inl (inl e)
append-cases t (x ∷ xs) ys (inr m) = elim (append-cases t xs ys m) [
  | inl k ↦ inl (inr k)
  | inr k ↦ inr k
]

pub Increasing-append :
    (xs ys : List ℕ)
    → Increasing xs
    → Increasing ys
    → ((s t : ℕ) → Has s xs → Has t ys → s < t)
    → Increasing (xs ++ ys)
Increasing-append [] ys h k before = k
Increasing-append (x ∷ xs) ys (above, h) k before = (
  All-of _ (xs ++ ys) (λ t m. elim (append-cases t xs ys m) [
    | inl m' ↦ All-Has _ xs t above m'
    | inr m' ↦ before x t (inl refl) m'
  ]),
  Increasing-append xs ys h k λ s t m n. before s t (inr m) n,
)

heads_meet :
    (x y : ℕ) (xs ys : List ℕ)
    → All (λ z. x < z) xs
    → All (λ z. y < z) ys
    → Has x (y ∷ ys)
    → Has y (x ∷ xs)
    → x ≡ y
heads_meet x y xs ys hx hy (inl e) n = e
heads_meet x y xs ys hx hy (inr m) (inl e) = sym e
heads_meet x y xs ys hx hy (inr m) (inr n) =
    absurd (omega (arith, All-Has _ ys x hy m, All-Has _ xs y hx n))

later : (x t : ℕ) (ys : List ℕ) → x < t → Has t (x ∷ ys) → Has t ys
later x t ys h (inl e) = absurd (omega (arith, h, e))
later x t ys h (inr m) = m

pub Increasing-extensional :
    (xs ys : List ℕ)
    → Increasing xs
    → Increasing ys
    → ((t : ℕ) → Has t xs → Has t ys)
    → ((t : ℕ) → Has t ys → Has t xs)
    → xs ≡ ys
Increasing-extensional [] [] hx hy f g = refl
Increasing-extensional [] (y ∷ ys) hx hy f g = absurd (g y (inl refl))
Increasing-extensional (x ∷ xs) [] hx hy f g = absurd (f x (inl refl))
Increasing-extensional (x ∷ xs) (y ∷ ys) (ax, hx) (ay, hy) f g =
    let e = heads_meet x y xs ys ax ay (f x (inl refl)) (g y (inl refl)) in
    let tails =
      Increasing-extensional xs ys hx hy
        (λ t m. later y t ys (rw e at (All-Has _ xs t ax m)) (f t (inr m)))
        (λ t m. later x t xs (rw (sym e) at (All-Has _ ys t ay m)) (g t (inr m))) in
    λ i. e i ∷ tails i
