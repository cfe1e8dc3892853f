-- ===== src/Bridge/Trading/Chosen.antt =====
-- What the orders that mt5_bridge/trading.py chooses ask the terminal for.
use tradingia.Prelude.{
  ℕ, ◌≡◌, ◌==◌, ap, ◌∙◌, inl, inr, none, some, List, [], ◌∷◌, Bool-cases, Option-cases, Member,
  arith,
}
use tradingia.Prelude.Result.{ok}
use tradingia.Bridge.Backend.{BackendPosition, BackendTick, MarketOrderType, TradeRequest}
use tradingia.Execution.Domain.{Side}
use tradingia.Bridge.Identity.{Hashing}
use tradingia.Bridge.Store.{BridgeStore}
use tradingia.Bridge.Trading.{
  Env, Ready, DemoOrderRequest, DemoCloseRequest, choose_order, choose_close, find_position,
  require_fresh_quote,
}
use tradingia.Bridge.Trading.Gates.{choose_order-IsChosen, fresh_tick}

-- a market order to buy at the ask, and one to sell at the bid
abbrev pub Buys : BackendTick → TradeRequest → Type 0
Buys tick t = (t.order_type ≡ MarketOrderType.order_type_buy) × (t.price ≡ tick.ask)

abbrev pub Sells : BackendTick → TradeRequest → Type 0
Sells tick t = (t.order_type ≡ MarketOrderType.order_type_sell) × (t.price ≡ tick.bid)

-- The order opens a position of the request's size and side, at the price that the side pays.
pub record IsOrderFor (env : Env) (request : DemoOrderRequest) (t : TradeRequest) : Type 0 where
  pub symbol : t.symbol ≡ request.symbol
  pub volume : t.volume ≡ request.volume
  pub opening : t.position_ticket ≡ none
  pub dealt :
      (tick : BackendTick) × (env.backend.symbol_info_tick request.symbol ≡ some (some tick))
      × (request.side ≡ Side.buy → Buys tick t)
      × (request.side ≡ Side.sell → Sells tick t)

-- The order closes a position that the terminal lists under the request's ticket: all of it, by a
-- sale where it was bought and a purchase where it was sold.
pub record IsCloseOf (env : Env) (request : DemoCloseRequest) (t : TradeRequest) : Type 0 where
  pub closing :
      (ps : List BackendPosition) × (p : BackendPosition) × (env.backend.positions_get ≡ some ps)
      × Member p ps
      × (p.ticket ≡ request.position_id)
      × (t.symbol ≡ p.symbol)
      × (t.volume ≡ p.volume)
      × (t.position_ticket ≡ some request.position_id)
      × ((tick : BackendTick) × (env.backend.symbol_info_tick p.symbol ≡ some (some tick))
          × (p.side ≡ Side.buy → Sells tick t)
          × (p.side ≡ Side.sell → Buys tick t))

find_position-ticket :
    (n : ℕ) (ps : List BackendPosition) (p : BackendPosition)
    → find_position n ps ≡ some p
    → p.ticket ≡ n
unfolding find_position
find_position-ticket n [] p h = cc
find_position-ticket n (x ∷ ps) p h = ground (arith, find_position-ticket n ps p)

found_is_listed :
    (n : ℕ) (ps : List BackendPosition) (p : BackendPosition)
    → find_position n ps ≡ some p
    → Member p ps
unfolding find_position
found_is_listed n [] p h = cc
found_is_listed n (x ∷ ps) p h = elim (Bool-cases (x.ticket == n)) [
  | inl here ↦ inl (ground arith)
  | inr there ↦ inr (found_is_listed n ps p (ground arith))
]

pub choose_order-IsOrderFor :
    (h : Hashing) (env : Env) (request : DemoOrderRequest) (s : BridgeStore) (ready : Ready)
    → choose_order h env request s ≡ ok ready
    → IsOrderFor env request ready.trade_request
unfolding choose_order
choose_order-IsOrderFor h env request s ready e = record {
  symbol = ground arith;
  volume = ground arith;
  opening = ground arith;
  dealt = (
    ready.tick,
    (choose_order-IsChosen h env request s ready e).quoted,
    λ buys. (ground arith, ground arith),
    λ sells. (ground arith, ground arith),
  );
}

module _ (h : Hashing) (env : Env) (request : DemoCloseRequest) (p : BackendPosition)
    (ready : Ready) (e : choose_close h env request ≡ ok (p, ready)) where
  close_found :
      (ps : List BackendPosition) × (env.backend.positions_get ≡ some ps)
      × (find_position request.position_id ps ≡ some p)
  unfolding choose_close
  close_found = elim (Option-cases env.backend.positions_get) [
    | inl unanswered ↦ absurd (ground arith)
    | inr (ps, positions) ↦ (ps, positions, ground arith)
  ]

  close_quoted : require_fresh_quote env p.symbol ≡ ok ready.tick
  unfolding choose_close
  close_quoted = ground arith

  closing_order :
      (ready.trade_request.symbol ≡ p.symbol)
      × (ready.trade_request.volume ≡ p.volume)
      × (ready.trade_request.position_ticket ≡ some p.ticket)
      × (p.side ≡ Side.buy → Sells ready.tick ready.trade_request)
      × (p.side ≡ Side.sell → Buys ready.tick ready.trade_request)
  unfolding choose_close
  closing_order = (
    ground arith,
    ground arith,
    ground arith,
    λ bought. (ground arith, ground arith),
    λ sold. (ground arith, ground arith),
  )

  pub choose_close-IsCloseOf : IsCloseOf env request ready.trade_request
  choose_close-IsCloseOf =
      let (ps, positions, found) = close_found in
      let (symbol, volume, ticket, buys, sells) = closing_order in
      let own = find_position-ticket request.position_id ps p found in
      record {
        closing = (
          ps,
          p,
          positions,
          found_is_listed request.position_id ps p found,
          own,
          symbol,
          volume,
          ticket ∙ ap some own,
          (ready.tick, (fresh_tick env p.symbol ready.tick close_quoted).0, buys, sells),
        );
      }
