-- ===== src/FxBacktest/Rollover/Days.antt =====
-- The two loops of crossings_between (src/fx/backtesting/costs.py): which instants they collect, and
-- in which order.
use tradingia.Prelude.{
  ℕ, ◌+◌, ◌*◌, ◌<◌, ◌≤◌, true, false, List, [], ◌∷◌, ◌≡◌, refl, ap, ◌∙◌, inl, inr, Bool-cases,
  arith,
}
use tradingia.Prelude.Increasing.{Has, Increasing, All-of, All-Has}
use tradingia.FxBacktest.Models.{Instant}
use tradingia.FxBacktest.Costs.{hour_length}
use tradingia.FxBacktest.Rollover.{in_span, crossings_of_day}

-- an instant in the span at one of the hours of the day that begins at `day`
abbrev pub CrossesAt : List ℕ → Instant → Instant → Instant → Instant → Type 0
CrossesAt hs start end day t =
    (h : ℕ) × Has h hs × (t ≡ day + h * hour_length) × (start < t) × (t ≤ end)

module _ (start end day : Instant) where
  day-inside :
      (h : ℕ) (hs : List ℕ)
      → in_span start end (day + h * hour_length) ≡ true
      → crossings_of_day (h ∷ hs) start end day
        ≡ (day + h * hour_length) ∷ crossings_of_day hs start end day
  unfolding crossings_of_day
  day-inside h hs e = rw e refl

  day-outside :
      (h : ℕ) (hs : List ℕ)
      → in_span start end (day + h * hour_length) ≡ false
      → crossings_of_day (h ∷ hs) start end day ≡ crossings_of_day hs start end day
  unfolding crossings_of_day
  day-outside h hs e = rw e refl

  span : (c : Instant) → in_span start end c ≡ true → (start < c) × (c ≤ end)
  span c e = ground arith

  no_span : (c : Instant) → in_span start end c ≡ false → start < c → c ≤ end → ⊥
  no_span c e h k = ground arith

  wider :
      (h : ℕ) (hs : List ℕ) (t : Instant)
      → CrossesAt hs start end day t
      → CrossesAt (h ∷ hs) start end day t
  wider h hs t (k, m, at, after, before) = (k, inr m, at, after, before)

  pub crossings_of_day-CrossesAt :
      (hs : List ℕ) (t : Instant)
      → Has t (crossings_of_day hs start end day)
      → CrossesAt hs start end day t
  unfolding crossings_of_day
  crossings_of_day-CrossesAt [] t m = absurd m
  crossings_of_day-CrossesAt (h ∷ hs) t m =
      elim (Bool-cases (in_span start end (day + h * hour_length))) [
        | inr e ↦ wider h hs t (crossings_of_day-CrossesAt hs t (rw (day-outside h hs e) at m))
        | inl e ↦ elim (rw (day-inside h hs e) at m) [
          | inl same ↦ (h, inl refl, same, rw same (span _ e).0, rw same (span _ e).1)
          | inr m' ↦ wider h hs t (crossings_of_day-CrossesAt hs t m')
        ]
      ]

  kept :
      (h t : ℕ) (hs : List ℕ)
      → Has t (crossings_of_day hs start end day)
      → Has t (crossings_of_day (h ∷ hs) start end day)
  kept h t hs m = elim (Bool-cases (in_span start end (day + h * hour_length))) [
    | inl e ↦ rw (day-inside h hs e) (inr m)
    | inr e ↦ rw (day-outside h hs e) m
  ]

  pub CrossesAt-crossings_of_day :
      (hs : List ℕ) (t : Instant)
      → CrossesAt hs start end day t
      → Has t (crossings_of_day hs start end day)
  CrossesAt-crossings_of_day [] t (h, m, at, after, before) = absurd m
  CrossesAt-crossings_of_day (k ∷ hs) t (h, inl same, at, after, before) =
      let here : t ≡ day + k * hour_length = at ∙ ap (λ n. day + n * hour_length) same in
      elim (Bool-cases (in_span start end (day + k * hour_length))) [
        | inl e ↦ rw (day-inside k hs e) (inl here)
        | inr e ↦ absurd (no_span _ e (rw here at after) (rw here at before))
      ]
  CrossesAt-crossings_of_day (k ∷ hs) t (h, inr m, at, after, before) =
      kept k t hs (CrossesAt-crossings_of_day hs t (h, m, at, after, before))

  pub crossings_of_day-Increasing :
      (hs : List ℕ) → Increasing hs → Increasing (crossings_of_day hs start end day)
  unfolding crossings_of_day
  crossings_of_day-Increasing [] h = tt
  crossings_of_day-Increasing (h ∷ hs) (above, up) =
      elim (Bool-cases (in_span start end (day + h * hour_length))) [
        | inr e ↦ rw (day-outside h hs e) (crossings_of_day-Increasing hs up)
        | inl e ↦ rw (day-inside h hs e) (
          All-of _ (crossings_of_day hs start end day) (λ t m.
              let (k, mem, at, after, before) = crossings_of_day-CrossesAt hs t m in
              omega (arith, at, All-Has _ hs k above mem)),
          crossings_of_day-Increasing hs up,
        )
      ]
