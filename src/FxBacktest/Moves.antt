-- ===== src/FxBacktest/Moves.antt =====
-- What a round of the engine's loop does to its variables, as steps (src/fx/backtesting/engine.py):
-- a swap is accrued, a position closed or opened, a point of the curve recorded.
use tradingia.Prelude.{
  ℕ, true, Option, none, some, is_some, ◌≡◌, refl, sym, ◌⊎◌, inl, inr, Option-split, if-split,
  arith,
}
use tradingia.Prelude.Result.{ok, >>=-ok, ok-injective}
use tradingia.Execution.Domain.{Decimal}
use tradingia.FxBacktest.Models.{Instant, PositionSide, FxBar, Position, TradeResult}
use tradingia.FxBacktest.Config.{FxEngineConfig}
use tradingia.FxBacktest.Legs.{open_position, close_position}
use tradingia.FxBacktest.Engine.{
  accrue, accrue_open, close_leg, open_leg, equity_at, mark_equity, mark,
}
use tradingia.FxBacktest.State.{LoopState, book, end_if_insolvent}

pub data Move (cfg : FxEngineConfig) : LoopState → LoopState → Type 0 where
  accrued :
      (st : LoopState) (swap : Decimal)
      → st.termination ≡ none
      → Move cfg st (record st { accrued_swap = swap })
  closed :
      (st : LoopState) (p : Position) (bar : FxBar) (bars_held : ℕ) (trade : TradeResult)
      → st.termination ≡ none
      → st.position ≡ some p
      → close_position cfg p bar bars_held st.accrued_swap ≡ ok trade
      → Move cfg st (end_if_insolvent cfg.terminate_on_insolvency bar (book trade st))
  opened :
      (st : LoopState) (p : Position) (i : ℕ) (bar : FxBar) (side : PositionSide)
      → st.termination ≡ none
      → open_position cfg side bar ≡ ok p
      → Move cfg st (record st { position = some p; open_bar_index = some i })
  marked :
      (st : LoopState) (bar : FxBar) (side : PositionSide) (equity : Decimal)
      → st.termination ≡ none
      → equity_at cfg bar st ≡ ok equity
      → Move cfg st (mark_equity cfg bar side equity st)

pub data Moves (cfg : FxEngineConfig) : LoopState → LoopState → Type 0 where
  done : (st : LoopState) → Moves cfg st st
  more : {st mid end : LoopState} → Move cfg st mid → Moves cfg mid end → Moves cfg st end

pub Moves-trans :
    {cfg : FxEngineConfig} {a b c : LoopState} → Moves cfg a b → Moves cfg b c → Moves cfg a c
Moves-trans (Moves.done st) ys = ys
Moves-trans (Moves.more x xs) ys = Moves.more x (Moves-trans xs ys)

none-ended : {o : Option Instant} → o ≡ none → is_some o ≡ true → ⊥
none-ended e h = ground arith

module _ (cfg : FxEngineConfig) where
  -- what each statement of a round leaves, when it returns
  pub accrue_open_lem :
      (prev : Instant) (bar : FxBar) (st : LoopState) {st' : LoopState}
      → accrue_open cfg prev bar st ≡ ok st'
      → (swap : Decimal) × (record st { accrued_swap = swap } ≡ st')
  unfolding accrue_open
  accrue_open_lem prev bar st h = elim (Option-split st.position _ _ h) [
    | inl (e, h') ↦ (st.accrued_swap, ok-injective (ok st) refl h')
    | inr (p, e, h') ↦
        let found = >>=-ok (accrue cfg prev bar.timestamp_utc p st.accrued_swap) _ h' in
        (found.0, ok-injective (ok _) refl found.2)
  ]

  pub close_leg_lem :
      (i : ℕ) (bar : FxBar) (st : LoopState) {st' : LoopState}
      → close_leg cfg i bar st ≡ ok st'
      → ((st.position ≡ none) × (st ≡ st'))
        ⊎ ((p : Position) × (held : ℕ) × (trade : TradeResult) × (st.position ≡ some p)
            × (close_position cfg p bar held st.accrued_swap ≡ ok trade)
            × (end_if_insolvent cfg.terminate_on_insolvency bar (book trade st) ≡ st'))
  unfolding close_leg
  close_leg_lem i bar st h = elim (Option-split st.position _ _ h) [
    | inl (e, h') ↦ inl (e, ok-injective (ok st) refl h')
    | inr (p, e, h') ↦
        let found = >>=-ok (close_position cfg p bar _ st.accrued_swap) _ h' in
        inr (p, _, found.0, e, found.1, ok-injective (ok _) refl found.2)
  ]

  pub open_leg_lem :
      (i : ℕ) (bar : FxBar) (side : PositionSide) (st : LoopState) {st' : LoopState}
      → open_leg cfg i bar side st ≡ ok st'
      → ((side ≡ PositionSide.flat) × (st ≡ st'))
        ⊎ ((p : Position) × (open_position cfg side bar ≡ ok p)
            × (record st { position = some p; open_bar_index = some i } ≡ st'))
  unfolding open_leg
  open_leg_lem i bar PositionSide.flat st h = inl (refl, ok-injective (ok st) refl h)
  open_leg_lem i bar PositionSide.long st h =
      let found = >>=-ok (open_position cfg PositionSide.long bar) _ h in
      inr (found.0, found.1, ok-injective (ok _) refl found.2)
  open_leg_lem i bar PositionSide.short st h =
      let found = >>=-ok (open_position cfg PositionSide.short bar) _ h in
      inr (found.0, found.1, ok-injective (ok _) refl found.2)

  pub mark_lem :
      (bar : FxBar) (side : PositionSide) (st : LoopState) {st' : LoopState}
      → st.termination ≡ none
      → mark cfg bar side st ≡ ok st'
      → (equity : Decimal) × (equity_at cfg bar st ≡ ok equity)
        × (mark_equity cfg bar side equity st ≡ st')
  unfolding mark
  mark_lem bar side st live h = elim (if-split (is_some st.termination) _ _ h) [
    | inl (ended, h') ↦ absurd (none-ended live ended)
    | inr (e, h') ↦
        let found = >>=-ok (equity_at cfg bar st) _ h' in
        (found.0, found.1, ok-injective (ok _) refl found.2)
  ]

  pub at_end : {a b c : LoopState} → b ≡ c → Moves cfg a b → Moves cfg a c
  at_end e xs = rw (sym e) xs

  pub one : {a b c : LoopState} → b ≡ c → Move cfg a b → Moves cfg a c
  one {b = b} e x = at_end e (Moves.more x (Moves.done b))
