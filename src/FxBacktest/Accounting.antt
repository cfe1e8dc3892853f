-- ===== src/FxBacktest/Accounting.antt =====
-- What one position costs and makes from its opening to its close: `_open` and `_close`
-- (src/fx/backtesting/engine.py).
use tradingia.Prelude.{
  ℕ, pos, ◌+ℤ◌, ◌-ℤ◌, ◌*ℤ◌, leb_ℤ, ltb, ltb_ℤ, ◌||◌, max, true, false, ◌≡◌, refl, sym, ap, ◌∙◌,
  arith, int_laws,
}
use tradingia.Prelude.IntMul.{sub_mul}
use tradingia.Prelude.Result.{ok, >>=-ok, raise_if-ok, ok-injective}
use tradingia.Execution.Domain.{Decimal}
use tradingia.FxBacktest.Models.{
  PositionSide, Position, TradeResult, FxBar, new_position, new_trade, exposure,
}
use tradingia.FxBacktest.Costs.{cost_for_side}
use tradingia.FxBacktest.Execution.{BidAsk, Fill, reconstruct_bid_ask, compute_fill}
use tradingia.FxBacktest.Config.{FxEngineConfig}
use tradingia.FxBacktest.Legs.{open_position, close_position, pnl_between, entry_side, exit_side}
use tradingia.FxBacktest.Prices.{
  spread_width, slip, price_move, quoted, filled_at, fill_at, compute_fill_lem,
  reconstruct_bid_ask_lem, pnl_between_lem,
}

new_position_lem : (p : Position) {q : Position} → new_position p ≡ ok q → p ≡ q
unfolding new_position
new_position_lem p h =
    let h1 = raise_if-ok _ _ _ h in
    let h2 = raise_if-ok (leb_ℤ p.lots (pos 0)) _ _ h1.1 in
    let h3 = raise_if-ok (leb_ℤ p.contract_size (pos 0)) _ _ h2.1 in
    let h4 = raise_if-ok (leb_ℤ p.entry_bid (pos 0) || leb_ℤ p.entry_ask (pos 0)) _ _ h3.1 in
    let h5 = raise_if-ok (ltb_ℤ p.entry_ask p.entry_bid) _ _ h4.1 in ok-injective (ok p) refl h5.1

new_trade_lem : (t : TradeResult) {u : TradeResult} → new_trade t ≡ ok u → t ≡ u
unfolding new_trade
new_trade_lem t h =
    let h1 = raise_if-ok _ _ _ h in
    let h2 = raise_if-ok (leb_ℤ t.lots (pos 0)) _ _ h1.1 in
    let h3 = raise_if-ok (ltb t.bars_held 1) _ _ h2.1 in ok-injective (ok t) refl h3.1

-- what is left of a difference of two results over one size
difference_of : (a b c size : Decimal) → a -ℤ b ≡ c → a *ℤ size -ℤ b *ℤ size ≡ c *ℤ size
difference_of a b c size e = sym (sub_mul a b size) ∙ ap (λ n. n *ℤ size) e

net_of :
    (reference spread_only executed commission swap : Decimal)
    → reference -ℤ (reference -ℤ spread_only) -ℤ (spread_only -ℤ executed) -ℤ commission -ℤ swap
      ≡ executed -ℤ commission -ℤ swap
net_of r s x c w = let e : r -ℤ (r -ℤ s) -ℤ (s -ℤ x) ≡ x = grind int_laws in ap (λ n. n -ℤ c -ℤ w) e

long_spread : (x y w : Decimal) → x -ℤ y -ℤ (x -ℤ (y +ℤ w)) ≡ w
long_spread x y w = grind int_laws

long_slip : (x z s : Decimal) → x -ℤ z -ℤ (x -ℤ s -ℤ (z +ℤ s)) ≡ s +ℤ s
long_slip x z s = grind int_laws

short_spread : (x y w : Decimal) → y -ℤ x -ℤ (y -ℤ (x +ℤ w)) ≡ w
short_spread x y w = grind int_laws

short_slip : (y z s : Decimal) → y -ℤ z -ℤ (y -ℤ s -ℤ (z +ℤ s)) ≡ s +ℤ s
short_slip y z s = grind int_laws

module _ (cfg : FxEngineConfig) where
  abbrev quote_of : FxBar → BidAsk
  quote_of bar = quoted bar.open_price bar.spread_points cfg.point

  abbrev opened_at : PositionSide → FxBar → Position
  opened_at side bar = record {
    symbol = cfg.symbol;
    side = side;
    lots = cfg.lots;
    contract_size = cfg.contract_size;
    open_time = bar.timestamp_utc;
    entry_bid = bar.open_price;
    entry_ask = (quote_of bar).ask;
    entry_execution_price = filled_at side true (slip cfg.slippage_model cfg.point) (quote_of bar);
    entry_spread_points = bar.spread_points;
  }

  abbrev entered : PositionSide → FxBar → Fill → Position
  entered side bar fill = record {
    symbol = cfg.symbol;
    side = side;
    lots = cfg.lots;
    contract_size = cfg.contract_size;
    open_time = bar.timestamp_utc;
    entry_bid = fill.bid;
    entry_ask = fill.ask;
    entry_execution_price = fill.execution_price;
    entry_spread_points = bar.spread_points;
  }

  open_position_lem :
      (side : PositionSide) (bar : FxBar) {p : Position}
      → open_position cfg side bar ≡ ok p
      → opened_at side bar ≡ p
  unfolding open_position
  open_position_lem side bar h =
      let (fill, filled, h') =
        >>=-ok
          (compute_fill side true bar.open_price bar.spread_points cfg.point cfg.slippage_model) _
          h in
      ap (entered side bar) (compute_fill_lem side true bar.open_price _ _ _ filled)
      ∙ new_position_lem (entered side bar fill) h'

  no_flat : (bar : FxBar) {p : Position} → open_position cfg PositionSide.flat bar ≡ ok p → ⊥
  unfolding open_position new_position
  no_flat bar h =
      let (fill, filled, h') =
        >>=-ok
          (compute_fill PositionSide.flat true bar.open_price bar.spread_points cfg.point
            cfg.slippage_model)
          _ h in
      ground (arith, h')

  -- the trade of a close, given its three results
  abbrev trade_of :
      Position → FxBar → ℕ → Decimal → Fill → Decimal → Decimal → Decimal → TradeResult
  trade_of p bar held swap fill executed reference spread_only =
      let commission =
        cost_for_side cfg.commission_model p.lots +ℤ cost_for_side cfg.commission_model p.lots in
      record {
        symbol = p.symbol;
        side = p.side;
        lots = p.lots;
        open_time = p.open_time;
        close_time = bar.timestamp_utc;
        entry_execution_price = p.entry_execution_price;
        exit_execution_price = fill.execution_price;
        entry_bid = p.entry_bid;
        entry_ask = p.entry_ask;
        exit_bid = fill.bid;
        exit_ask = fill.ask;
        gross_pnl = reference;
        spread_cost = reference -ℤ spread_only;
        slippage_cost = spread_only -ℤ executed;
        commission_cost = commission;
        swap_cost = swap;
        net_pnl =
            reference
            -ℤ (reference -ℤ spread_only)
            -ℤ (spread_only -ℤ executed)
            -ℤ commission
            -ℤ swap;
        bars_held = max held 1;
      }

  same_trade :
      (p : Position) (bar : FxBar) (held : ℕ) (swap : Decimal) {f f' : Fill}
      {x x' y y' z z' : Decimal}
      → f ≡ f'
      → x ≡ x'
      → y ≡ y'
      → z ≡ z'
      → trade_of p bar held swap f x y z ≡ trade_of p bar held swap f' x' y' z'
  same_trade p bar held swap e e1 e2 e3 = λ i. trade_of p bar held swap (e i) (e1 i) (e2 i) (e3 i)

  -- a position's close in terms of the position and the bar
  close_position_lem :
      (p : Position) (bar : FxBar) (held : ℕ) (swap : Decimal) {t : TradeResult}
      → close_position cfg p bar held swap ≡ ok t
      → let exit = fill_at p.side false (slip cfg.slippage_model cfg.point) (quote_of bar) in
        let entry_quote = quoted p.entry_bid p.entry_spread_points cfg.point in
        trade_of p bar held swap exit
          (price_move p.side p.entry_execution_price exit.execution_price *ℤ exposure p)
          (price_move p.side p.entry_bid bar.open_price *ℤ exposure p)
          (price_move p.side (entry_side p.side entry_quote) (exit_side p.side (quote_of bar))
            *ℤ exposure p)
        ≡ t
  unfolding close_position
  close_position_lem p bar held swap h =
      let (fill, filled, h1) =
        >>=-ok
          (compute_fill p.side false bar.open_price bar.spread_points cfg.point cfg.slippage_model)
          _ h in
      let same = compute_fill_lem p.side false bar.open_price _ _ _ filled in
      let (executed, priced, h2) =
        >>=-ok (pnl_between cfg p p.entry_execution_price fill.execution_price) _ h1 in
      let (q0, quote0, h3) =
        >>=-ok (reconstruct_bid_ask p.entry_bid p.entry_spread_points cfg.point) _ h2 in
      let (q1, quote1, h4) =
        >>=-ok (reconstruct_bid_ask fill.bid bar.spread_points cfg.point) _ h3 in
      let (reference, moved, h5) = >>=-ok (pnl_between cfg p p.entry_bid fill.bid) _ h4 in
      let (spread_only, between, h6) =
        >>=-ok (pnl_between cfg p (entry_side p.side q0) (exit_side p.side q1)) _ h5 in
      let e1 =
        ap (λ f. price_move p.side p.entry_execution_price f.execution_price *ℤ exposure p) same
        ∙ pnl_between_lem cfg p _ _ priced in
      let e2 =
        ap (λ f. price_move p.side p.entry_bid f.bid *ℤ exposure p) same
        ∙ pnl_between_lem cfg p _ _ moved in
      let a = (reconstruct_bid_ask_lem p.entry_bid _ _ quote0).0 in
      let b =
        ap (λ f. quoted f.bid bar.spread_points cfg.point) same
        ∙ (reconstruct_bid_ask_lem fill.bid _ _ quote1).0 in
      let e3 =
        ap
          (λ q.
            price_move p.side (entry_side p.side q) (exit_side p.side (quote_of bar)) *ℤ exposure p)
          a
        ∙ ap (λ q. price_move p.side (entry_side p.side q0) (exit_side p.side q) *ℤ exposure p) b
        ∙ pnl_between_lem cfg p _ _ between in
      same_trade p bar held swap same e1 e2 e3
      ∙ new_trade_lem (trade_of p bar held swap fill executed reference spread_only) h6

  -- the bar whose spread a position pays: the one at which it buys
  abbrev pub bought_at : PositionSide → FxBar → FxBar → FxBar
  bought_at PositionSide.short opened closed = closed
  bought_at _ opened closed = opened

  -- The costs of a position that opens at one bar and closes at another are what the source calls them:
  -- the gross result is the move of the bid, the spread cost the spread of the bar where it buys, the
  -- slippage cost twice the slippage of a fill, and the net result what was made between the two
  -- execution prices, less commission and swap. No cost is counted twice.
  pub close_position-open_position :
      (side : PositionSide) (opened closed : FxBar) (held : ℕ) (swap : Decimal) (p : Position)
      (t : TradeResult)
      → open_position cfg side opened ≡ ok p
      → close_position cfg p closed held swap ≡ ok t
      → let bar = bought_at side opened closed in
        let size = cfg.lots *ℤ cfg.contract_size in
        let slippage = slip cfg.slippage_model cfg.point in
        (t.gross_pnl ≡ price_move side opened.open_price closed.open_price *ℤ size)
        × (t.spread_cost ≡ spread_width bar.spread_points cfg.point *ℤ size)
        × (t.slippage_cost ≡ (slippage +ℤ slippage) *ℤ size)
        × (t.net_pnl
            ≡ price_move side t.entry_execution_price t.exit_execution_price *ℤ size
              -ℤ t.commission_cost
              -ℤ swap)
  unfolding exposure
  close_position-open_position PositionSide.flat opened closed held swap p t ho hc =
      absurd (no_flat opened ho)
  close_position-open_position PositionSide.long opened closed held swap p t ho hc =
      let bought = open_position_lem PositionSide.long opened ho in
      let hc' = rw (sym bought) at hc in
      let sold = close_position_lem (opened_at PositionSide.long opened) closed held swap hc' in
      rw (sym sold) (
        refl,
        difference_of _ _ _ _ (long_spread _ _ _),
        difference_of _ _ _ _ (long_slip _ _ _),
        net_of _ _ _ _ _,
      )
  close_position-open_position PositionSide.short opened closed held swap p t ho hc =
      let sold = open_position_lem PositionSide.short opened ho in
      let hc' = rw (sym sold) at hc in
      let bought = close_position_lem (opened_at PositionSide.short opened) closed held swap hc' in
      rw (sym bought) (
        refl,
        difference_of _ _ _ _ (short_spread _ _ _),
        difference_of _ _ _ _ (short_slip _ _ _),
        net_of _ _ _ _ _,
      )
