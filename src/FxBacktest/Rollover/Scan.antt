-- ===== src/FxBacktest/Rollover/Scan.antt =====
-- The `while` of crossings_between (src/fx/backtesting/costs.py), day by day.
use tradingia.Prelude.{
  ℕ, zero, suc, ◌+◌, ◌*◌, ◌<◌, ◌≤◌, leb, true, false, List, [], ◌++◌, ◌≡◌, refl, sym, ◌⊎◌, inl, inr,
  Bool-cases, All, arith,
}
use tradingia.Prelude.Increasing.{
  Has, Increasing, All-Has, Has-append_left, Has-append_right, append-cases, Increasing-append,
}
use tradingia.FxBacktest.Models.{Instant}
use tradingia.FxBacktest.Costs.{day_length, hour_length}
use tradingia.FxBacktest.Rollover.{crossings_of_day, crossings_from}
use tradingia.FxBacktest.Rollover.Days.{
  CrossesAt, crossings_of_day-CrossesAt, CrossesAt-crossings_of_day, crossings_of_day-Increasing,
}

-- an instant in the span at one of the hours of some day
abbrev pub IsCrossing : List ℕ → Instant → Instant → Instant → Type 0
IsCrossing hs start end t = (d : ℕ) × CrossesAt hs start end (d * day_length) t

module _ (hs : List ℕ) (start end : Instant) where
  past :
      (fuel : ℕ) (day : Instant)
      → leb day end ≡ false
      → crossings_from (suc fuel) hs start end day ≡ []
  unfolding crossings_from
  past fuel day e = rw e refl

  reached :
      (fuel : ℕ) (day : Instant)
      → leb day end ≡ true
      → crossings_from (suc fuel) hs start end day
        ≡ crossings_of_day hs start end day ++ crossings_from fuel hs start end (day + day_length)
  unfolding crossings_from
  reached fuel day e = rw e refl

  next_day : (d : ℕ) → d * day_length + day_length ≡ suc d * day_length
  next_day d = omega arith

  -- every collected instant crosses at a day from the first on
  pub crossings_from-CrossesAt :
      (fuel d : ℕ) (t : Instant)
      → Has t (crossings_from fuel hs start end (d * day_length))
      → (k : ℕ) × (d ≤ k) × CrossesAt hs start end (k * day_length) t
  unfolding crossings_from
  crossings_from-CrossesAt zero d t m = absurd m
  crossings_from-CrossesAt (suc fuel) d t m = elim (Bool-cases (leb (d * day_length) end)) [
    | inr e ↦ absurd (rw (past fuel (d * day_length) e) at m)
    | inl e ↦ elim (append-cases t _ _ (rw (reached fuel (d * day_length) e) at m)) [
      | inl m' ↦ (d, omega arith, crossings_of_day-CrossesAt start end (d * day_length) hs t m')
      | inr m' ↦
          let (k, le, at) = crossings_from-CrossesAt fuel (suc d) t (rw (next_day d) at m') in
          (k, omega (arith, le), at)
    ]
  ]

  -- a crossing is collected when the fuel reaches its day
  pub CrossesAt-crossings_from :
      (fuel d k : ℕ) (t : Instant)
      → d ≤ k
      → k < d + fuel
      → CrossesAt hs start end (k * day_length) t
      → Has t (crossings_from fuel hs start end (d * day_length))
  CrossesAt-crossings_from zero d k t le lt at = absurd (omega (arith, le, lt))
  CrossesAt-crossings_from (suc fuel) d k t le lt (h, m, at, after, before) =
      let here : leb (d * day_length) end ≡ true = ground (arith, in_time d k h t le at before) in
      rw (reached fuel (d * day_length) here) (elim (first_or_later d k le) [
        | inl e ↦ Has-append_left t _ _ (
            CrossesAt-crossings_of_day start end (d * day_length) hs t
              (h, m, rw (sym e) at at, after, before))
        | inr later ↦ Has-append_right t (crossings_of_day hs start end (d * day_length)) _ (
            rw (next_day d) (
              CrossesAt-crossings_from fuel (suc d) k t later (omega (arith, lt))
                (h, m, at, after, before)))
      ])
    where
      first_or_later : (d k : ℕ) → d ≤ k → (d ≡ k) ⊎ (suc d ≤ k)
      first_or_later d k le = ground arith

      in_time :
          (d k h t : ℕ)
          → d ≤ k
          → t ≡ k * day_length + h * hour_length
          → t ≤ end
          → d * day_length ≤ end
      in_time d k h t le at before = omega (arith, le, at, before)

  -- when the hours are in order and within the day, so are the instants
  pub crossings_from-Increasing :
      (fuel d : ℕ)
      → Increasing hs
      → All (λ h. h ≤ 23) hs
      → Increasing (crossings_from fuel hs start end (d * day_length))
  unfolding crossings_from
  crossings_from-Increasing zero d up within = tt
  crossings_from-Increasing (suc fuel) d up within = elim (Bool-cases (leb (d * day_length) end)) [
    | inr e ↦ rw (past fuel (d * day_length) e) tt
    | inl e ↦
        rw (reached fuel (d * day_length) e, next_day d)
          (Increasing-append (crossings_of_day hs start end (d * day_length)) _
            (crossings_of_day-Increasing start end (d * day_length) hs up)
            (crossings_from-Increasing fuel (suc d) up within)
            λ s t m n.
              let (h, mh, at, after, before) =
                crossings_of_day-CrossesAt start end (d * day_length) hs s m in
              let (k, le, (h', mh', at', after', before')) =
                crossings_from-CrossesAt fuel (suc d) t n in
              omega (arith, at, at', le, All-Has _ hs h within mh))
  ]
