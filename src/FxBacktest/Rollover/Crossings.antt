-- ===== src/FxBacktest/Rollover/Crossings.antt =====
-- What crossings_between (src/fx/backtesting/costs.py) promises: every rollover once, in order, and
-- the same ones however the time between two instants is cut.
use tradingia.Prelude.{
  ℕ, ◌+◌, ◌*◌, ◌/◌, ◌<◌, ◌≤◌, leb, ltb, true, false, List, ◌++◌, ◌≡◌, sym, ap, ◌∙◌, ◌⊎◌, inl, inr,
  ◌↔◌, Bool-cases, All, arith,
}
use tradingia.Prelude.Result.{ok}
use tradingia.Prelude.Increasing.{
  Has, Distinct, Increasing, All-of, All-Has, append-cases, Has-append_left, Has-append_right,
  Increasing-append, Increasing-extensional,
}
use tradingia.FxBacktest.Models.{Instant}
use tradingia.FxBacktest.Costs.{day_length, hour_length}
use tradingia.FxBacktest.Rollover.{
  RolloverSchedule, sorted, crossings_from, midnight, days_spanned, crossings_between,
}
use tradingia.FxBacktest.Rollover.Sorting.{
  sorted-Has, Has-sorted, sorted-Increasing, Increasing-sorted,
}
use tradingia.FxBacktest.Rollover.Scan.{
  IsCrossing, crossings_from-CrossesAt, CrossesAt-crossings_from, crossings_from-Increasing,
}

-- the hours of a day, each once
abbrev pub IsSchedule : RolloverSchedule → Type 0
IsSchedule s = Distinct s.hours_utc × All (λ h. h ≤ 23) s.hours_utc

first_day : (t : Instant) → midnight t ≡ t / day_length * day_length
first_day t = omega arith

fuel_is_enough :
    (start end k h t : ℕ)
    → t ≡ k * day_length + h * hour_length
    → h ≤ 23
    → start < t
    → t ≤ end
    → (start / day_length ≤ k) × (k < start / day_length + days_spanned start end)
fuel_is_enough start end k h t at within after before =
    (omega (arith, at, within, after), omega (arith, at, after, before))

module _ (s : RolloverSchedule) (good : IsSchedule s) where
  abbrev collected : Instant → Instant → List Instant
  collected start end =
      crossings_from (days_spanned start end) (sorted s.hours_utc) start end
        (start / day_length * day_length)

  sorted_hours : All (λ h. h ≤ 23) (sorted s.hours_utc)
  sorted_hours =
      All-of _ (sorted s.hours_utc)
        λ h m. All-Has _ s.hours_utc h good.1 (sorted-Has h s.hours_utc m)

  collected-Increasing : (start end : Instant) → Increasing (collected start end)
  collected-Increasing start end =
      crossings_from-Increasing (sorted s.hours_utc) start end (days_spanned start end)
        (start / day_length) (sorted-Increasing s.hours_utc good.0) sorted_hours

  crossings_between_lem :
      (start end : Instant) → start ≤ end → crossings_between s start end ≡ ok (collected start end)
  unfolding crossings_between
  crossings_between_lem start end h =
      let not_before : ltb end start ≡ false = ground arith in
      rw (not_before, first_day start)
        (ap ok (Increasing-sorted (collected start end) (collected-Increasing start end)))

  collected-IsCrossing :
      (start end t : Instant) → Has t (collected start end) → IsCrossing s.hours_utc start end t
  collected-IsCrossing start end t m =
      let (k, le, (h, mem, at, after, before)) =
        crossings_from-CrossesAt (sorted s.hours_utc) start end (days_spanned start end)
          (start / day_length) t m in
      (k, (h, sorted-Has h s.hours_utc mem, at, after, before))

  IsCrossing-collected :
      (start end t : Instant) → IsCrossing s.hours_utc start end t → Has t (collected start end)
  IsCrossing-collected start end t (k, (h, m, at, after, before)) =
      let (lo, hi) =
        fuel_is_enough start end k h t at (All-Has _ s.hours_utc h good.1 m) after before in
      CrossesAt-crossings_from (sorted s.hours_utc) start end (days_spanned start end)
        (start / day_length) k t lo hi (h, Has-sorted h s.hours_utc m, at, after, before)

  -- For a schedule of distinct hours of the day and a span that does not end before it begins,
  -- crossings_between returns a strictly increasing list, and an instant is in it exactly when it lies
  -- after the start, not after the end, and at one of the hours of some day.
  pub crossings_between-IsCrossing :
      (start end : Instant)
      → start ≤ end
      → (xs : List Instant) × (crossings_between s start end ≡ ok xs)
        × Increasing xs
        × ((t : Instant) → Has t xs ↔ IsCrossing s.hours_utc start end t)
  crossings_between-IsCrossing start end h = (
    collected start end,
    crossings_between_lem start end h,
    collected-Increasing start end,
    λ t. (collected-IsCrossing start end t, IsCrossing-collected start end t),
  )

  widen_end :
      (a b c t : Instant) → b ≤ c → IsCrossing s.hours_utc a b t → IsCrossing s.hours_utc a c t
  widen_end a b c t le (k, (h, m, at, after, before)) =
      (k, (h, m, at, after, omega (arith, le, before)))

  widen_start :
      (a b c t : Instant) → a ≤ b → IsCrossing s.hours_utc b c t → IsCrossing s.hours_utc a c t
  widen_start a b c t le (k, (h, m, at, after, before)) =
      (k, (h, m, at, omega (arith, le, after), before))

  cut :
      (a b c t : Instant)
      → IsCrossing s.hours_utc a c t
      → IsCrossing s.hours_utc a b t ⊎ IsCrossing s.hours_utc b c t
  cut a b c t (k, (h, m, at, after, before)) = elim (Bool-cases (leb t b)) [
    | inl e ↦ inl (k, (h, m, at, after, early t b e))
    | inr e ↦ inr (k, (h, m, at, late t b e, before))
  ]
    where
      early : (t b : ℕ) → leb t b ≡ true → t ≤ b
      early t b e = ground arith

      late : (t b : ℕ) → leb t b ≡ false → b < t
      late t b e = ground arith

  pieces : (a b c : Instant) → a ≤ b → b ≤ c → collected a b ++ collected b c ≡ collected a c
  pieces a b c h k =
      Increasing-extensional _ (collected a c)
        (Increasing-append (collected a b) (collected b c) (collected-Increasing a b)
          (collected-Increasing b c)
          λ x y m n.
            let (d, (i, mi, at, after, before)) = collected-IsCrossing a b x m in
            let (e, (j, mj, at', after', before')) = collected-IsCrossing b c y n in
            omega (arith, before, after'))
        (collected-Increasing a c)
        (λ t m.
          IsCrossing-collected a c t (elim (append-cases t (collected a b) (collected b c) m) [
            | inl l ↦ widen_end a b c t k (collected-IsCrossing a b t l)
            | inr r ↦ widen_start a b c t h (collected-IsCrossing b c t r)
          ]))
        (λ t m. elim (cut a b c t (collected-IsCrossing a c t m)) [
          | inl l ↦ Has-append_left t (collected a b) (collected b c) (IsCrossing-collected a b t l)
          | inr r ↦
              Has-append_right t (collected a b) (collected b c) (IsCrossing-collected b c t r)
        ])

  -- For a schedule of distinct hours of the day, the crossings of a span are those of its part up to an
  -- instant in it followed by those of the part after it.
  pub crossings_between-append :
      (a b c : Instant)
      → a ≤ b
      → b ≤ c
      → (xs : List Instant) × (ys : List Instant) × (crossings_between s a b ≡ ok xs)
        × (crossings_between s b c ≡ ok ys)
        × (crossings_between s a c ≡ ok (xs ++ ys))
  crossings_between-append a b c h k = (
    collected a b,
    collected b c,
    crossings_between_lem a b h,
    crossings_between_lem b c k,
    crossings_between_lem a c (omega (arith, h, k)) ∙ ap ok (sym (pieces a b c h k)),
  )
