-- ===== src/FxBacktest/Causal.antt =====
-- Look-ahead: which signals a point of the curve depends on (src/fx/backtesting/engine.py).
use tradingia.Prelude.{
  ℕ, zero, suc, ◌+◌, ◌-◌, ◌<◌, none, some, List, [], ◌∷◌, length, take, take-append, length-append,
  ◌≡◌, refl, sym, ap, ◌∙◌, ◌⊎◌, inl, inr, arith,
}
use mathlib.Core.Path.{subst}
use mathlib.Core.List.{head-eq_of_cons-eq, tail-eq_of_cons-eq}
use tradingia.Prelude.Result.{ok, ok-injective}
use tradingia.FxBacktest.Models.{Instant, TargetPosition, FxBar}
use tradingia.FxBacktest.Config.{FxEngineConfig}
use tradingia.FxBacktest.Engine.{
  FxBacktestResult, run_loop, all_but_last, shifted_targets, replace_last, initial_state, result_of,
  run,
}
use tradingia.FxBacktest.State.{LoopState, EquityPoint, book}
use tradingia.FxBacktest.Ended.{Ended, run_lem}
use tradingia.FxBacktest.Rounds.{step-Moves}
use tradingia.FxBacktest.Loop.{run_loop_lem, run_loop-extends, run_loop-length, running_or_ended}

take-all_but_last {ℓ} :
    {A : Type ℓ} (n : ℕ) (xs : List A) → n < length xs → take n (all_but_last xs) ≡ take n xs
unfolding all_but_last
take-all_but_last zero xs h = refl
take-all_but_last (suc n) [] h = absurd (omega (arith, h))
take-all_but_last (suc n) (x ∷ []) h = absurd (omega (arith, h))
take-all_but_last (suc n) (x ∷ y ∷ ys) h =
    ap (λ t. x ∷ t) (take-all_but_last n (y ∷ ys) (omega (arith, h)))

length-all_but_last {ℓ} : {A : Type ℓ} (xs : List A) → length (all_but_last xs) ≡ length xs - 1
unfolding all_but_last
length-all_but_last [] = refl
length-all_but_last (x ∷ []) = refl
length-all_but_last (x ∷ y ∷ ys) = omega (arith, length-all_but_last (y ∷ ys))

take-replace_last {ℓ} :
    {A : Type ℓ} (v : A) (n : ℕ) (xs : List A)
    → n < length xs
    → take n (replace_last v xs) ≡ take n xs
unfolding replace_last
take-replace_last v n xs h =
    take-append n (all_but_last xs) (v ∷ []) (omega (arith, h, length-all_but_last xs))
    ∙ take-all_but_last n xs h

-- with the bars, one target for each
length-shifted_targets :
    (signals : List TargetPosition)
    → 0 < length signals
    → length (shifted_targets signals) ≡ length signals
unfolding shifted_targets
length-shifted_targets signals h = omega (arith, h, length-all_but_last signals)

take-shifted_targets :
    (k : ℕ) (s t : List TargetPosition)
    → k < length s
    → k < length t
    → take k s ≡ take k t
    → take (suc k) (shifted_targets s) ≡ take (suc k) (shifted_targets t)
unfolding shifted_targets
take-shifted_targets k s t hs ht e =
    ap (λ l. TargetPosition.flat ∷ l)
      (take-all_but_last k s hs ∙ e ∙ sym (take-all_but_last k t ht))

from_start :
    (m : ℕ) (xs ys : List EquityPoint) → take (0 + m) xs ≡ take (0 + m) ys → take m xs ≡ take m ys
from_start m xs ys h = let e : 0 + m ≡ m = omega arith in subst (λ n. take n xs ≡ take n ys) e h

at_place :
    (m n l : ℕ) (a b : LoopState)
    → l ≡ n + 1
    → take (l + m) a.equity_curve ≡ take (l + m) b.equity_curve
    → take (n + suc m) a.equity_curve ≡ take (n + suc m) b.equity_curve
at_place m n l a b place h = let e : n + suc m ≡ l + m = omega (arith, place) in rw e h

module _ (cfg : FxEngineConfig) where
  -- the points that are there already are the same whatever is left
  prefix-extends :
      (i j : ℕ) (prev prev' : Instant) (bars bars' : List FxBar) (s t : List TargetPosition)
      (st : LoopState) {a b : LoopState}
      → st.termination ≡ none
      → run_loop cfg i prev bars s st ≡ ok a
      → run_loop cfg j prev' bars' t st ≡ ok b
      → take (length st.equity_curve + 0) a.equity_curve
        ≡ take (length st.equity_curve + 0) b.equity_curve
  prefix-extends i j prev prev' bars bars' s t st live ha hb =
      let n = length st.equity_curve + 0 in
      let (ps, ea) = run_loop-extends cfg i prev bars s st live ha in
      let (qs, eb) = run_loop-extends cfg j prev' bars' t st live hb in
      ap (take n) ea
      ∙ take-append n st.equity_curve ps (omega arith)
      ∙ sym (take-append n st.equity_curve qs (omega arith))
      ∙ sym (ap (take n) eb)

  -- what a loop does after a round that left `mid`
  abbrev Rest : ℕ → FxBar → List FxBar → List TargetPosition → LoopState → LoopState → Type 0
  Rest i bar bars s mid end =
      ((mid.termination ≡ none) × (run_loop cfg (suc i) bar.timestamp_utc bars s mid ≡ ok end))
      ⊎ ((t : Instant) × (mid.termination ≡ some t) × (mid ≡ end))

  -- two loops after the same round have both ended, or both go on
  both :
      (i : ℕ) (bar : FxBar) (bars : List FxBar) (s t : List TargetPosition) (mid mid' : LoopState)
      {a b : LoopState}
      → mid ≡ mid'
      → Rest i bar bars s mid a
      → Rest i bar bars t mid' b
      → (a ≡ b)
        ⊎ ((mid.termination ≡ none)
            × (run_loop cfg (suc i) bar.timestamp_utc bars s mid ≡ ok a)
            × (run_loop cfg (suc i) bar.timestamp_utc bars t mid ≡ ok b))
  both i bar bars s t mid mid' e (inl (live, ha)) (inl (live', hb)) =
      inr (live, ha, rw (sym e) at hb)
  both i bar bars s t mid mid' e (inl (live, ha)) (inr (u, ended, hb)) =
      absurd (running_or_ended (sym (ap (λ l. l.termination) e) ∙ live) ended)
  both i bar bars s t mid mid' e (inr (u, ended, ha)) (inl (live', hb)) =
      absurd (running_or_ended live' (sym (ap (λ l. l.termination) e) ∙ ended))
  both i bar bars s t mid mid' e (inr (u, ended, ha)) (inr (v, ended', hb)) = inl (sym ha ∙ e ∙ hb)

  run_loop-IsCausal :
      (m i : ℕ) (prev : Instant) (bars : List FxBar) (s t : List TargetPosition) (st : LoopState)
      {a b : LoopState}
      → st.termination ≡ none
      → take m s ≡ take m t
      → run_loop cfg i prev bars s st ≡ ok a
      → run_loop cfg i prev bars t st ≡ ok b
      → take (length st.equity_curve + m) a.equity_curve
        ≡ take (length st.equity_curve + m) b.equity_curve
  unfolding run_loop
  run_loop-IsCausal zero i prev bars s t st live e ha hb =
      prefix-extends i i prev prev bars bars s t st live ha hb
  run_loop-IsCausal (suc m) i prev [] s t st live e ha hb =
      ap (λ l. take (length st.equity_curve + suc m) l.equity_curve) (ok-injective (ok st) ha hb)
  run_loop-IsCausal (suc m) i prev (bar ∷ bars) [] [] st live e ha hb =
      ap (λ l. take (length st.equity_curve + suc m) l.equity_curve) (ok-injective (ok st) ha hb)
  run_loop-IsCausal (suc m) i prev (bar ∷ bars) [] (y ∷ t) st live e ha hb = absurd (ground arith)
  run_loop-IsCausal (suc m) i prev (bar ∷ bars) (x ∷ s) [] st live e ha hb = absurd (ground arith)
  run_loop-IsCausal (suc m) i prev (bar ∷ bars) (x ∷ s) (y ∷ t) st {a = a} {b = b} live e ha hb =
      let hb' = rw (sym (head-eq_of_cons-eq e)) at hb in
      let (mid, round, rest) = run_loop_lem cfg i prev bar bars x s st ha in
      let (mid', round', rest') = run_loop_lem cfg i prev bar bars x t st hb' in
      let (p, grown) = (step-Moves cfg i prev bar x st live round).1 in
      let place = ap length grown ∙ length-append st.equity_curve (p ∷ []) in
      elim (both i bar bars s t mid mid' (ok-injective _ round round') rest rest') [
        | inl same ↦ ap (λ l. take (length st.equity_curve + suc m) l.equity_curve) same
        | inr (live', ra, rb) ↦
            at_place m (length st.equity_curve) (length mid.equity_curve) a b place (
              run_loop-IsCausal m (suc i) bar.timestamp_utc bars s t mid live'
                (tail-eq_of_cons-eq e) ra rb)
      ]

  -- the end of the run leaves the points before the last
  Ended-keeps :
      (last : ℕ) (bar : FxBar) (st end : LoopState) (n : ℕ)
      → (st.termination ≡ none → n < length st.equity_curve)
      → Ended cfg last bar st end
      → take n end.equity_curve ≡ take n st.equity_curve
  unfolding book
  Ended-keeps last bar st _ n before (Ended.ended_early t e) = refl
  Ended-keeps last bar st _ n before (Ended.flat_at_end live e) = refl
  Ended-keeps last bar st _ n before (Ended.closed_at_end p held trade live e priced) =
      take-replace_last _ n st.equity_curve (before live)

  run-prefix :
      (k : ℕ) (b : FxBar) (rest : List FxBar) (signals : List TargetPosition) (looped : LoopState)
      → length (b ∷ rest) ≡ length signals
      → suc k < length (b ∷ rest)
      → run_loop cfg 0 b.timestamp_utc (b ∷ rest) (shifted_targets signals) (initial_state cfg)
        ≡ ok looped
      → looped.termination ≡ none
      → suc k < length looped.equity_curve
  run-prefix k b rest signals looped same h loop live =
      let recorded =
        run_loop-length cfg 0 b.timestamp_utc (b ∷ rest) (shifted_targets signals)
          (initial_state cfg) refl
          (length-shifted_targets signals (omega (arith, same, h)) ∙ sym same) loop live in
      omega (arith, recorded, h)

  -- No look-ahead: when two runs over the same bars return, and their signals agree before bar `k` with
  -- another bar after it, their equity curves have the same points up to bar `k`.
  pub run-IsCausal :
      (bars : List FxBar) (s t : List TargetPosition) (k : ℕ) (a b : FxBacktestResult)
      → suc k < length bars
      → take k s ≡ take k t
      → run cfg bars s ≡ ok a
      → run cfg bars t ≡ ok b
      → take (suc k) a.equity_curve ≡ take (suc k) b.equity_curve
  unfolding result_of
  run-IsCausal [] s t k a b h e ha hb = absurd (omega (arith, h))
  run-IsCausal (x ∷ xs) s t k a b h e ha hb =
      let (la, ea, same_s, loop_a, end_a, ra) = run_lem cfg x xs s ha in
      let (lb, eb, same_t, loop_b, end_b, rb) = run_lem cfg x xs t hb in
      ap (λ r. take (suc k) r.equity_curve) (sym ra)
      ∙ Ended-keeps _ _ la ea (suc k) (run-prefix k x xs s la same_s h loop_a) end_a
      ∙ from_start (suc k) la.equity_curve lb.equity_curve (
          run_loop-IsCausal (suc k) 0 x.timestamp_utc (x ∷ xs) (shifted_targets s)
            (shifted_targets t) (initial_state cfg) refl
            (take-shifted_targets k s t (omega (arith, same_s, h)) (omega (arith, same_t, h)) e)
            loop_a loop_b)
      ∙ sym (Ended-keeps _ _ lb eb (suc k) (run-prefix k x xs t lb same_t h loop_b) end_b)
      ∙ ap (λ r. take (suc k) r.equity_curve) rb
