-- ===== src/FxBacktest/Returns.antt =====
-- That the parts of a run return (src/fx/backtesting/): nothing in them raises on bars and a
-- configuration that are in order.
use tradingia.Prelude.{
  ℕ, ℤ, pos, ◌*ℤ◌, ◌<ℤ◌, ◌≤ℤ◌, leb_ℤ, ltb_ℤ, ltb, max, ◌||◌, Bool, true, false, Option, get_or, ◌≡◌,
  refl, sym, ap, arith, +ℤ_parts,
}
use tradingia.Prelude.IntMul.{mul_nonneg}
use tradingia.Prelude.Result.{Result, Yields, Yields-bind, Yields-raise_if}
use tradingia.Execution.Domain.{Decimal}
use tradingia.FxBacktest.Models.{
  PositionSide, Position, TradeResult, FxBar, BacktestError, is_flat, new_position, new_trade,
}
use tradingia.FxBacktest.Costs.{SlippageModel}
use tradingia.FxBacktest.Execution.{
  BidAsk, decimal_points, new_bid_ask, reconstruct_bid_ask, compute_fill,
}
use tradingia.FxBacktest.Pnl.{GrossPnlInputs, currencies_differ, price_diff, compute_gross_pnl}
use tradingia.FxBacktest.Config.{FxEngineConfig}
use tradingia.FxBacktest.Legs.{open_position, close_position, unrealized_pnl, pnl_between}
use tradingia.FxBacktest.Prices.{quoted}

abbrev pub Returns {ℓ} : {A : Type ℓ} → Result BacktestError A → Type ℓ
Returns m = Yields (λ _. Unit {0}) m

-- a spread that is known to be negative is refused
abbrev pub IsSpread : Option ℤ → Type 0
IsSpread spread = pos 0 ≤ℤ get_or spread (pos 0)

quoted_ask :
    (price : Decimal) (spread : Option ℤ) (point : Decimal)
    → pos 0 <ℤ point
    → IsSpread spread
    → price ≤ℤ (quoted price spread point).ask
unfolding decimal_points
quoted_ask price spread point h k =
    let wide =
      mul_nonneg (get_or spread (pos 0) *ℤ pos 1000) point
        (mul_nonneg (get_or spread (pos 0)) (pos 1000) k (omega arith)) (omega (arith, h)) in
    omega (arith, wide, +ℤ_parts price (get_or spread (pos 0) *ℤ pos 1000 *ℤ point))

not_leb : (a : ℤ) → pos 0 <ℤ a → leb_ℤ a (pos 0) ≡ false
not_leb a h = ground arith

not_ltb : (a b : ℤ) → b ≤ℤ a → ltb_ℤ a b ≡ false
not_ltb a b h = ground arith

neither : (a b : ℤ) → pos 0 <ℤ a → pos 0 <ℤ b → (leb_ℤ a (pos 0) || leb_ℤ b (pos 0)) ≡ false
neither a b h k = ground arith

new_bid_ask-Yields :
    (b : BidAsk) → pos 0 <ℤ b.bid → b.bid ≤ℤ b.ask → Yields (λ c. b ≡ c) (new_bid_ask b)
unfolding new_bid_ask
new_bid_ask-Yields b h k =
    Yields-raise_if _ _ _ _ (neither b.bid b.ask h (omega (arith, h, k)))
      (Yields-raise_if _ _ _ _ (not_ltb b.ask b.bid k) (b, refl, refl))

pub reconstruct_bid_ask-Yields :
    (price : Decimal) (spread : Option ℤ) (point : Decimal)
    → pos 0 <ℤ price
    → pos 0 <ℤ point
    → IsSpread spread
    → Yields (λ b. quoted price spread point ≡ b) (reconstruct_bid_ask price spread point)
unfolding reconstruct_bid_ask
reconstruct_bid_ask-Yields price spread point h k l = Yields-raise_if _ _ _ _ (not_leb price h) (
    Yields-raise_if _ _ _ _ (not_leb point k) (
      Yields-raise_if _ _ _ _ (not_ltb (get_or spread (pos 0)) (pos 0) l)
        (new_bid_ask-Yields (quoted price spread point) h (quoted_ask price spread point k l))))

compute_fill-Yields :
    (side : PositionSide) (opening : Bool) (price : Decimal) (spread : Option ℤ) (point : Decimal)
    (model : SlippageModel)
    → is_flat side ≡ false
    → pos 0 <ℤ price
    → pos 0 <ℤ point
    → IsSpread spread
    → Yields
        (λ f. (price ≡ f.bid) × (price ≤ℤ f.ask))
        (compute_fill side opening price spread point model)
unfolding compute_fill
compute_fill-Yields PositionSide.flat opening price spread point model d h k l =
    absurd (ground arith)
compute_fill-Yields PositionSide.long opening price spread point model d h k l =
    Yields-bind _ _ _ _ (reconstruct_bid_ask-Yields price spread point h k l)
      λ b same. (_, refl, (ap (λ q. q.bid) same, rw (sym same) (quoted_ask price spread point k l)))
compute_fill-Yields PositionSide.short opening price spread point model d h k l =
    Yields-bind _ _ _ _ (reconstruct_bid_ask-Yields price spread point h k l)
      λ b same. (_, refl, (ap (λ q. q.bid) same, rw (sym same) (quoted_ask price spread point k l)))

price_diff-Returns :
    (side : PositionSide) (entry exit : Decimal)
    → is_flat side ≡ false
    → Returns (price_diff side entry exit)
unfolding price_diff
price_diff-Returns PositionSide.flat entry exit d = absurd (ground arith)
price_diff-Returns PositionSide.long entry exit d = (_, refl, tt)
price_diff-Returns PositionSide.short entry exit d = (_, refl, tt)

compute_gross_pnl-Returns :
    (i : GrossPnlInputs)
    → currencies_differ i.currency_profit i.account_currency ≡ false
    → is_flat i.side ≡ false
    → Returns (compute_gross_pnl i)
unfolding compute_gross_pnl
compute_gross_pnl-Returns i same d = Yields-raise_if _ _ _ _ same (
    Yields-bind _ _ _ _ (price_diff-Returns i.side i.entry_execution_price i.exit_execution_price d)
      λ m done. (_, refl, tt))

-- a configuration and a bar on which nothing raises
pub record IsPriced (cfg : FxEngineConfig) : Type 0 where
  pub lots_positive : pos 0 <ℤ cfg.lots
  pub contract_positive : pos 0 <ℤ cfg.contract_size
  pub point_positive : pos 0 <ℤ cfg.point
  pub same_currency : currencies_differ cfg.currency_profit cfg.account_currency ≡ false

pub record IsUsable (bar : FxBar) : Type 0 where
  pub open_positive : pos 0 <ℤ bar.open_price
  pub close_positive : pos 0 <ℤ bar.close
  pub spread_known : IsSpread bar.spread_points

pub record IsHeld (p : Position) : Type 0 where
  pub directional : is_flat p.side ≡ false
  pub lots_positive : pos 0 <ℤ p.lots
  pub bid_positive : pos 0 <ℤ p.entry_bid
  pub spread_known : IsSpread p.entry_spread_points

new_position-Yields :
    (p : Position)
    → IsHeld p
    → pos 0 <ℤ p.contract_size
    → p.entry_bid ≤ℤ p.entry_ask
    → Yields IsHeld (new_position p)
unfolding new_position
new_position-Yields p held size above = Yields-raise_if _ _ _ _ held.directional (
    Yields-raise_if _ _ _ _ (not_leb p.lots held.lots_positive) (
      Yields-raise_if _ _ _ _ (not_leb p.contract_size size) (
        Yields-raise_if _ _ _ _
          (neither p.entry_bid p.entry_ask held.bid_positive
            (omega (arith, held.bid_positive, above)))
          (Yields-raise_if _ _ _ _ (not_ltb p.entry_ask p.entry_bid above) (p, refl, held)))))

new_trade-Returns :
    (t : TradeResult)
    → is_flat t.side ≡ false
    → pos 0 <ℤ t.lots
    → ltb t.bars_held 1 ≡ false
    → Returns (new_trade t)
unfolding new_trade
new_trade-Returns t d lots held =
    Yields-raise_if _ _ _ _ d
      (Yields-raise_if _ _ _ _ (not_leb t.lots lots) (Yields-raise_if _ _ _ _ held (t, refl, tt)))

module _ (cfg : FxEngineConfig) (priced : IsPriced cfg) where
  pub open_position-Yields :
      (side : PositionSide) (bar : FxBar)
      → is_flat side ≡ false
      → IsUsable bar
      → Yields IsHeld (open_position cfg side bar)
  unfolding open_position
  open_position-Yields side bar d usable =
      Yields-bind _ _ _ _
        (compute_fill-Yields side true bar.open_price bar.spread_points cfg.point cfg.slippage_model
          d usable.open_positive priced.point_positive usable.spread_known)
        λ fill bid_ask.
          new_position-Yields _
            (record {
              directional = d;
              lots_positive = priced.lots_positive;
              bid_positive = rw (bid_ask.0) at usable.open_positive;
              spread_known = usable.spread_known;
            })
            priced.contract_positive (rw (sym bid_ask.0) bid_ask.1)

  pnl_between-Returns :
      (p : Position) (entry exit : Decimal) → IsHeld p → Returns (pnl_between cfg p entry exit)
  unfolding pnl_between
  pnl_between-Returns p entry exit held =
      compute_gross_pnl-Returns _ priced.same_currency held.directional

  pub unrealized_pnl-Returns :
      (p : Position) (bar : FxBar) → IsHeld p → IsUsable bar → Returns (unrealized_pnl cfg p bar)
  unfolding unrealized_pnl
  unrealized_pnl-Returns p bar held usable =
      Yields-bind _ _ _ _
        (reconstruct_bid_ask-Yields bar.close bar.spread_points cfg.point usable.close_positive
          priced.point_positive usable.spread_known)
        λ b same. pnl_between-Returns p _ _ held

  pub close_position-Returns :
      (p : Position) (bar : FxBar) (bars_held : ℕ) (swap : Decimal)
      → IsHeld p
      → IsUsable bar
      → Returns (close_position cfg p bar bars_held swap)
  unfolding close_position
  close_position-Returns p bar bars_held swap held usable =
      Yields-bind _ _ _ _
        (compute_fill-Yields p.side false bar.open_price bar.spread_points cfg.point
          cfg.slippage_model held.directional usable.open_positive priced.point_positive
          usable.spread_known)
        λ fill bid_ask. Yields-bind _ _ _ _ (pnl_between-Returns p _ _ held) λ executed u.
          Yields-bind _ _ _ _
            (reconstruct_bid_ask-Yields p.entry_bid p.entry_spread_points cfg.point
              held.bid_positive priced.point_positive held.spread_known)
            λ q0 same0.
              Yields-bind _ _ _ _
                (reconstruct_bid_ask-Yields fill.bid bar.spread_points cfg.point
                  (rw bid_ask.0 at usable.open_positive) priced.point_positive usable.spread_known)
                λ q1 same1. Yields-bind _ _ _ _ (pnl_between-Returns p _ _ held) λ reference v.
                  Yields-bind _ _ _ _ (pnl_between-Returns p _ _ held) λ spread_only w.
                    new_trade-Returns _ held.directional held.lots_positive (at_least_one bars_held)
    where
      at_least_one : (n : ℕ) → ltb (max n 1) 1 ≡ false
      at_least_one n = ground arith
