-- ===== src/Prelude/Result.antt =====
-- Python's exceptions as values: a call returns or raises.
use mathlib.Core.Path.{◌≡◌, refl, sym, ap, ◌∙◌}
use mathlib.Core.Logic.{◌⊎◌, inl, inr}
use mathlib.Core.Bool.{Bool, true, false}
use mathlib.Core.Option.{Option, none, some}
use native.Mathlib.Omega.{arith}
use tradingia.Prelude.Tests.{if◌then◌else◌}

pub data Result {ℓ κ} (E : Type ℓ) (A : Type κ) : Type (ℓ ⊔ κ) where
  ok : A → Result E A
  err : E → Result E A

infixl 5 ◌>>=◌ ◌>>◌
abbrev pub ◌>>=◌ {ℓ κ μ} :
    {E : Type ℓ} {A : Type κ} {B : Type μ} → Result E A → (A → Result E B) → Result E B
ok a >>= f = f a
err e >>= f = err e

abbrev pub ◌>>◌ {ℓ κ} : {E : Type ℓ} {B : Type κ} → Result E (Unit {0}) → Result E B → Result E B
m >> k = m >>= λ _. k

-- `if test: raise e`
abbrev pub raise_if {ℓ} : {E : Type ℓ} → Bool → E → Result E (Unit {0})
raise_if true e = err e
raise_if false e = ok tt

pub Result-cases {ℓ κ} :
    {E : Type ℓ} {A : Type κ} (r : Result E A) → ((e : E) × (r ≡ err e)) ⊎ ((a : A) × (r ≡ ok a))
Result-cases (ok a) = inr (a, refl)
Result-cases (err e) = inl (e, refl)

-- A chain that returns has a first call that returns.
pub >>=-ok {ℓ κ μ} :
    {E : Type ℓ} {A : Type κ} {B : Type μ} (m : Result E A) (f : A → Result E B) {b : B}
    → (m >>= f) ≡ ok b
    → (a : A) × (m ≡ ok a) × (f a ≡ ok b)
>>=-ok (ok a) f h = (a, refl, h)
>>=-ok (err e) f h = ground arith

abbrev or_else {ℓ κ} : {E : Type ℓ} {A : Type κ} → A → Result E A → A
or_else d (ok a) = a
or_else d (err e) = d

pub ok-injective {ℓ κ} :
    {E : Type ℓ} {A : Type κ} (m : Result E A) {a b : A} → m ≡ ok a → m ≡ ok b → a ≡ b
ok-injective m {a = a} {b = b} g h = ap (or_else a) (sym g ∙ h)

abbrev error_or {ℓ κ} : {E : Type ℓ} {A : Type κ} → E → Result E A → E
error_or d (ok a) = d
error_or d (err e) = e

pub err-injective {ℓ κ} :
    {E : Type ℓ} {A : Type κ} (m : Result E A) {d e : E} → m ≡ err d → m ≡ err e → d ≡ e
err-injective m {d = d} g h = ap (error_or d) (sym g ∙ h)

-- A check that passes leaves the rest.
pub raise_if-ok {ℓ κ} :
    {E : Type ℓ} {B : Type κ} (test : Bool) (e : E) (m : Result E B) {b : B}
    → (raise_if test e >> m) ≡ ok b
    → (test ≡ false) × (m ≡ ok b)
raise_if-ok true e m h = ground arith
raise_if-ok false e m h = (refl, h)

-- A call that returns, with a value of which `P` holds.
abbrev pub Yields {ℓ κ μ} : {E : Type ℓ} {A : Type κ} → (A → Type μ) → Result E A → Type (ℓ ⊔ κ ⊔ μ)
Yields {A = A} P m = (a : A) × (m ≡ ok a) × P a

pub Yields-bind {ℓ κ μ ν ξ} :
    {E : Type ℓ} {A : Type κ} {B : Type μ} (P : A → Type ν) (Q : B → Type ξ) (m : Result E A)
    (f : A → Result E B)
    → Yields P m
    → ((a : A) → P a → Yields Q (f a))
    → Yields Q (m >>= f)
Yields-bind P Q m f (a, e, p) next = let (b, e', q) = next a p in (b, ap (λ r. r >>= f) e ∙ e', q)

pub Yields-raise_if {ℓ κ μ} :
    {E : Type ℓ} {B : Type κ} (Q : B → Type μ) (test : Bool) (e : E) (m : Result E B)
    → test ≡ false
    → Yields Q m
    → Yields Q (raise_if test e >> m)
Yields-raise_if Q test e m passed (b, e', q) = (b, ap (λ t. raise_if t e >> m) passed ∙ e', q)

pub Yields-if {ℓ κ μ} :
    {E : Type ℓ} {B : Type κ} (Q : B → Type μ) (test : Bool) (m n : Result E B)
    → (test ≡ true → Yields Q m)
    → (test ≡ false → Yields Q n)
    → Yields Q (if test then m else n)
Yields-if Q true m n on_true on_false = on_true refl
Yields-if Q false m n on_true on_false = on_false refl

pub Yields-elim {ℓ κ μ ν} :
    {A : Type ℓ} {E : Type κ} {B : Type μ} (Q : B → Type ν) (o : Option A) (m : Result E B)
    (f : A → Result E B)
    → (o ≡ none → Yields Q m)
    → ((a : A) → o ≡ some a → Yields Q (f a))
    → Yields Q (elim o [ none ↦ m | some a ↦ f a ])
Yields-elim Q none m f absent present = absent refl
Yields-elim Q (some a) m f absent present = present a refl
