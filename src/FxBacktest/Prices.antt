-- ===== src/FxBacktest/Prices.antt =====
-- The prices of fills and the profit between two of them (src/fx/backtesting/execution.py, pnl.py).
use tradingia.Prelude.{
  ℤ, pos, ◌+ℤ◌, ◌-ℤ◌, ◌*ℤ◌, ◌<ℤ◌, ◌≤ℤ◌, leb_ℤ, ltb_ℤ, ◌||◌, Bool, true, false, Option, get_or, ◌≡◌,
  refl, ap, ◌∙◌, arith,
}
use tradingia.Prelude.Result.{ok, >>=-ok, raise_if-ok, ok-injective}
use tradingia.Execution.Domain.{Decimal}
use tradingia.FxBacktest.Models.{PositionSide, Position, exposure}
use tradingia.FxBacktest.Costs.{SlippageModel, points, slipped}
use tradingia.FxBacktest.Execution.{
  BidAsk, Fill, decimal_points, new_bid_ask, reconstruct_bid_ask, compute_fill,
}
use tradingia.FxBacktest.Pnl.{GrossPnlInputs, price_diff, compute_gross_pnl}
use tradingia.FxBacktest.Config.{FxEngineConfig}
use tradingia.FxBacktest.Legs.{pnl_between}

-- the width of the spread, and what slippage takes
abbrev pub spread_width : Option ℤ → Decimal → Decimal
spread_width spread point = decimal_points (get_or spread (pos 0)) *ℤ point

abbrev pub slip : SlippageModel → Decimal → Decimal
slip model point = points model *ℤ point

-- what a position of the side makes from one price to another, for each unit
abbrev pub price_move : PositionSide → Decimal → Decimal → Decimal
price_move PositionSide.short entry exit = entry -ℤ exit
price_move _ entry exit = exit -ℤ entry

abbrev pub quoted : Decimal → Option ℤ → Decimal → BidAsk
quoted price spread point = record { bid = price; ask = price +ℤ spread_width spread point }

new_bid_ask_lem : (b : BidAsk) {c : BidAsk} → new_bid_ask b ≡ ok c → b ≡ c
unfolding new_bid_ask
new_bid_ask_lem b h =
    let h1 = raise_if-ok (leb_ℤ b.bid (pos 0) || leb_ℤ b.ask (pos 0)) _ _ h in
    let h2 = raise_if-ok (ltb_ℤ b.ask b.bid) _ _ h1.1 in ok-injective (ok b) refl h2.1

-- a quote that is returned has a spread that is not negative
pub reconstruct_bid_ask_lem :
    (price : Decimal) (spread : Option ℤ) (point : Decimal) {b : BidAsk}
    → reconstruct_bid_ask price spread point ≡ ok b
    → (quoted price spread point ≡ b) × (pos 0 <ℤ point) × (pos 0 ≤ℤ get_or spread (pos 0))
unfolding reconstruct_bid_ask
reconstruct_bid_ask_lem price spread point h =
    let h1 = raise_if-ok (leb_ℤ price (pos 0)) _ _ h in
    let h2 = raise_if-ok (leb_ℤ point (pos 0)) _ _ h1.1 in
    let h3 = raise_if-ok (ltb_ℤ (get_or spread (pos 0)) (pos 0)) _ _ h2.1 in
    (new_bid_ask_lem _ h3.1, ground (arith, h2.0), ground (arith, h3.0))

-- the price at which a position of the side is opened or closed
abbrev pub filled_at : PositionSide → Bool → Decimal → BidAsk → Decimal
filled_at PositionSide.long true slip b = b.ask +ℤ slip
filled_at PositionSide.long false slip b = b.bid -ℤ slip
filled_at _ true slip b = b.bid -ℤ slip
filled_at _ false slip b = b.ask +ℤ slip

abbrev pub fill_at : PositionSide → Bool → Decimal → BidAsk → Fill
fill_at side opening slip b = record {
  bid = b.bid;
  ask = b.ask;
  execution_price = filled_at side opening slip b;
}

as_quoted :
    (side : PositionSide) (opening : Bool) (price : Decimal) (spread : Option ℤ) (point : Decimal)
    (model : SlippageModel) {b : BidAsk}
    → reconstruct_bid_ask price spread point ≡ ok b
    → fill_at side opening (slip model point) (quoted price spread point)
      ≡ fill_at side opening (slip model point) b
as_quoted side opening price spread point model h =
    ap (fill_at side opening (slip model point)) (reconstruct_bid_ask_lem price spread point h).0

pub compute_fill_lem :
    (side : PositionSide) (opening : Bool) (price : Decimal) (spread : Option ℤ) (point : Decimal)
    (model : SlippageModel) {f : Fill}
    → compute_fill side opening price spread point model ≡ ok f
    → fill_at side opening (slip model point) (quoted price spread point) ≡ f
unfolding compute_fill slipped
compute_fill_lem PositionSide.flat opening price spread point model h =
    let (b, quote, h') = >>=-ok (reconstruct_bid_ask price spread point) _ h in
    absurd (ground (arith, h'))
compute_fill_lem PositionSide.long true price spread point model h =
    let (b, quote, h') = >>=-ok (reconstruct_bid_ask price spread point) _ h in
    as_quoted PositionSide.long true price spread point model quote ∙ ok-injective (ok _) refl h'
compute_fill_lem PositionSide.long false price spread point model h =
    let (b, quote, h') = >>=-ok (reconstruct_bid_ask price spread point) _ h in
    as_quoted PositionSide.long false price spread point model quote ∙ ok-injective (ok _) refl h'
compute_fill_lem PositionSide.short true price spread point model h =
    let (b, quote, h') = >>=-ok (reconstruct_bid_ask price spread point) _ h in
    as_quoted PositionSide.short true price spread point model quote ∙ ok-injective (ok _) refl h'
compute_fill_lem PositionSide.short false price spread point model h =
    let (b, quote, h') = >>=-ok (reconstruct_bid_ask price spread point) _ h in
    as_quoted PositionSide.short false price spread point model quote ∙ ok-injective (ok _) refl h'

price_diff_lem :
    (side : PositionSide) (entry exit : Decimal) {d : Decimal}
    → price_diff side entry exit ≡ ok d
    → price_move side entry exit ≡ d
unfolding price_diff
price_diff_lem PositionSide.long entry exit h = ok-injective (ok _) refl h
price_diff_lem PositionSide.short entry exit h = ok-injective (ok _) refl h
price_diff_lem PositionSide.flat entry exit h = absurd (ground arith)

compute_gross_pnl_lem :
    (i : GrossPnlInputs) {v : Decimal}
    → compute_gross_pnl i ≡ ok v
    → price_move i.side i.entry_execution_price i.exit_execution_price
        *ℤ (i.lots *ℤ i.contract_size)
      ≡ v
unfolding compute_gross_pnl
compute_gross_pnl_lem i h =
    let h1 = raise_if-ok _ _ _ h in
    let (d, diff, h') =
      >>=-ok (price_diff i.side i.entry_execution_price i.exit_execution_price) _ h1.1 in
    ap (λ m. m *ℤ (i.lots *ℤ i.contract_size)) (price_diff_lem i.side _ _ diff)
    ∙ ok-injective (ok _) refl h'

pub pnl_between_lem :
    (cfg : FxEngineConfig) (p : Position) (entry exit : Decimal) {v : Decimal}
    → pnl_between cfg p entry exit ≡ ok v
    → price_move p.side entry exit *ℤ exposure p ≡ v
unfolding pnl_between exposure
pnl_between_lem cfg p entry exit h = compute_gross_pnl_lem _ h
