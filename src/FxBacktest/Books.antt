-- ===== src/FxBacktest/Books.antt =====
-- The account of a run (src/fx/backtesting/engine.py): what it is made of.
use tradingia.Prelude.{
  ℕ, ℤ, pos, ◌+ℤ◌, none, List, [], ◌∷◌, ◌++◌, ◌≡◌, refl, sym, ap, ◌∙◌, inl, inr, Bool, Bool-cases,
  ◌&&◌, leb_ℤ, arith, int_laws,
}
use tradingia.Prelude.Result.{ok}
use tradingia.Execution.Domain.{Decimal}
use tradingia.FxBacktest.Models.{FxBar, TradeResult, TargetPosition}
use tradingia.FxBacktest.Config.{FxEngineConfig}
use tradingia.FxBacktest.Engine.{FxBacktestResult, mark_equity, initial_state, result_of, run}
use tradingia.FxBacktest.State.{LoopState, book, end_if_insolvent}
use tradingia.FxBacktest.Moves.{Move, Moves}
use tradingia.FxBacktest.Ended.{Ended, run_lem, no_bars}
use tradingia.FxBacktest.Loop.{run_loop-Moves}

-- the sum of what the trades made
abbrev pub total_net : List TradeResult → Decimal
total_net [] = pos 0
total_net (t ∷ ts) = t.net_pnl +ℤ total_net ts

zero_add : (a : ℤ) → pos 0 +ℤ a ≡ a
zero_add a = grind int_laws

add_assoc : (a b c : ℤ) → (a +ℤ b) +ℤ c ≡ a +ℤ (b +ℤ c)
add_assoc a b c = grind int_laws

total_net-append : (ts us : List TradeResult) → total_net (ts ++ us) ≡ total_net ts +ℤ total_net us
total_net-append [] us = sym (zero_add (total_net us))
total_net-append (t ∷ ts) us =
    ap (λ n. t.net_pnl +ℤ n) (total_net-append ts us)
    ∙ sym (add_assoc t.net_pnl (total_net ts) (total_net us))

add_zero : (a : ℤ) → a +ℤ pos 0 ≡ a
add_zero a = grind int_laws

total_net-snoc :
    (ts : List TradeResult) (t : TradeResult) → total_net (ts ++ t ∷ []) ≡ total_net ts +ℤ t.net_pnl
total_net-snoc ts t =
    total_net-append ts (t ∷ []) ∙ ap (λ n. total_net ts +ℤ n) (add_zero t.net_pnl)

-- the balance and the realized result are the trades'
abbrev Balanced : FxEngineConfig → LoopState → Type 0
Balanced cfg st =
    (st.balance ≡ cfg.initial_balance +ℤ total_net st.trades)
    × (st.realized_pnl ≡ total_net st.trades)

module _ (cfg : FxEngineConfig) where
  book-Balanced :
      (trade : TradeResult) (st : LoopState) → Balanced cfg st → Balanced cfg (book trade st)
  unfolding book
  book-Balanced trade st (b, r) = (
    ap (λ n. n +ℤ trade.net_pnl) b
        ∙ add_assoc _ _ _
        ∙ ap (λ n. cfg.initial_balance +ℤ n) (sym (total_net-snoc st.trades trade)),
    ap (λ n. n +ℤ trade.net_pnl) r ∙ sym (total_net-snoc st.trades trade),
  )

  end_if_insolvent-Balanced :
      (terminate : Bool) (bar : FxBar) (st : LoopState)
      → Balanced cfg st
      → Balanced cfg (end_if_insolvent terminate bar st)
  unfolding end_if_insolvent
  end_if_insolvent-Balanced terminate bar st h =
      elim (Bool-cases (terminate && leb_ℤ st.balance (pos 0))) [ inl e ↦ rw e h | inr e ↦ rw e h ]

  Move-Balanced : {a b : LoopState} → Move cfg a b → Balanced cfg a → Balanced cfg b
  unfolding mark_equity
  Move-Balanced (Move.accrued st swap live) h = h
  Move-Balanced (Move.closed st p bar held trade live e priced) h =
      end_if_insolvent-Balanced cfg.terminate_on_insolvency bar (book trade st)
        (book-Balanced trade st h)
  Move-Balanced (Move.opened st p i bar side live priced) h = h
  Move-Balanced (Move.marked st bar side equity live e) h = h

  Moves-Balanced : {a b : LoopState} → Moves cfg a b → Balanced cfg a → Balanced cfg b
  Moves-Balanced (Moves.done st) h = h
  Moves-Balanced (Moves.more x xs) h = Moves-Balanced xs (Move-Balanced x h)

  Ended-Balanced :
      (last : ℕ) (bar : FxBar) (st end : LoopState)
      → Ended cfg last bar st end
      → Balanced cfg st
      → Balanced cfg end
  Ended-Balanced last bar st _ (Ended.ended_early t e) h = h
  Ended-Balanced last bar st _ (Ended.flat_at_end live e) h = h
  Ended-Balanced last bar st _ (Ended.closed_at_end p held trade live e priced) h =
      book-Balanced trade st h

  Ended-flat :
      (last : ℕ) (bar : FxBar) (st end : LoopState)
      → Ended cfg last bar st end
      → end.termination ≡ none
      → end.position ≡ none
  unfolding book
  Ended-flat last bar st _ (Ended.ended_early t e) live = absurd (ground arith)
  Ended-flat last bar st _ (Ended.flat_at_end live' e) live = e
  Ended-flat last bar st _ (Ended.closed_at_end p held trade live' e priced) live = refl

  -- When a run returns, its final balance is the initial balance and the sum of the net results of its
  -- trades, its realized result is that sum, and a run that was not ended early leaves no position.
  pub run-IsBalanced :
      (bars : List FxBar) (signals : List TargetPosition) (r : FxBacktestResult)
      → run cfg bars signals ≡ ok r
      → (r.final_account.balance ≡ cfg.initial_balance +ℤ total_net r.trades)
        × (r.final_account.realized_pnl ≡ total_net r.trades)
        × (r.termination ≡ none → r.final_account.position ≡ none)
  unfolding result_of
  run-IsBalanced [] signals r h = absurd (no_bars cfg signals h)
  run-IsBalanced (b ∷ rest) signals r h =
      let (looped, ended, same, loop, end, result) = run_lem cfg b rest signals h in
      let moves = run_loop-Moves cfg 0 b.timestamp_utc (b ∷ rest) _ (initial_state cfg) refl loop in
      let start : Balanced cfg (initial_state cfg) = (sym (add_zero cfg.initial_balance), refl) in
      let books = Ended-Balanced _ _ looped ended end (Moves-Balanced moves start) in
      rw (sym result) (books.0, books.1, Ended-flat _ _ looped ended end)
