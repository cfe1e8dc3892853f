-- ===== src/Bridge/Schemas/RoundTrip.antt =====
-- The client (src/execution/mt5_remote.py) reads what the bridge (mt5_bridge/schemas.py) writes.
use Prim.Native.String.{String}
use text.Mathlib.Text.{◌==◌}
use text.Mathlib.TextEquality.{eq_iff}
use tradingia.Prelude.{
  pos, ◌<ℤ◌, ◌≤ℤ◌, leb_ℤ, ltb_ℤ, true, false, some, List, [], ◌∷◌, map, All, ◌≡◌, refl, arith,
  if◌then◌else◌,
}
use tradingia.Prelude.Result.{ok}
use tradingia.Execution.Domain.{Decimal, Side}
use tradingia.Execution.Remote.Json.{Json, Python, lookup, str, ends_with_z}
use tradingia.Execution.Remote.Values.{
  require_mapping, require_field, parse_decimal, parse_utc_timestamp, parse_side,
}
use tradingia.Execution.Remote.Answers.{
  check_symbol, parse_quote, parse_position, parse_position_items, parse_positions,
}
use tradingia.Execution.Remote.Records.{Quote, Position}
use tradingia.Bridge.QuoteFreshness.{Microseconds}
use tradingia.Bridge.Backend.{BackendTick, BackendPosition}
use tradingia.Bridge.Schemas.{
  Printer, side_text, iso_utc, quote_response, position_response, position_items,
  positions_response,
}

-- `Decimal(str(d))` is `d`, and `fromisoformat` reads what `isoformat` writes for a time in UTC
pub record Reads (pr : Printer) (py : Python) : Type 0 where
  pub decimals : (d : Decimal) → py.decimal_of (pr.str_of_decimal d) ≡ some d
  pub times :
      (t : Microseconds)
      → py.fromisoformat (
          if ends_with_z (pr.isoformat t) then py.replace_zulu (pr.isoformat t) else pr.isoformat t)
        ≡ some (record { utc = t; aware = true })

same_text : (s : String) → (s == s) ≡ true
same_text s = (eq_iff s s).1 refl

module _ (pr : Printer) (py : Python) (reads : Reads pr py) where
  decimal_reads : (d : Decimal) → parse_decimal py (Json.string (pr.str_of_decimal d)) ≡ ok d
  unfolding parse_decimal
  decimal_reads d = rw (reads.decimals d) refl

  time_reads :
      (t : Microseconds)
      → parse_utc_timestamp py (Json.string (pr.isoformat t))
        ≡ ok (record { utc = t; aware = true })
  unfolding parse_utc_timestamp
  time_reads t = rw (reads.times t) refl

  abbrev quote_of : BackendTick → Quote
  quote_of tick = record {
    symbol = pr.text_of tick.symbol;
    bid = tick.bid;
    ask = tick.ask;
    timestamp = record { utc = tick.time_utc.utc; aware = true };
  }

  symbol_reads :
      (tick : BackendTick) → check_symbol (quote_response pr tick) (pr.text_of tick.symbol) ≡ ok tt
  unfolding check_symbol lookup quote_response
  symbol_reads tick = rw (same_text (pr.text_of tick.symbol)) refl

  -- When the text of a decimal and of a time read back as what they were written for, the client reads
  -- the bridge's quote of a tick with a positive bid that is not above its ask as the quote with the
  -- tick's symbol, prices and instant.
  pub parse_quote-quote_response :
      (tick : BackendTick)
      → pos 0 <ℤ tick.bid
      → tick.bid ≤ℤ tick.ask
      → parse_quote py (quote_response pr tick) (pr.text_of tick.symbol) ≡ ok (quote_of tick)
  unfolding parse_quote require_field lookup quote_response iso_utc
  parse_quote-quote_response tick h k =
      let bid_positive : leb_ℤ tick.bid (pos 0) ≡ false = ground arith in
      let ask_positive : leb_ℤ tick.ask (pos 0) ≡ false = ground arith in
      let in_order : ltb_ℤ tick.ask tick.bid ≡ false = ground arith in
      rw
        (
          symbol_reads tick,
          decimal_reads tick.bid,
          decimal_reads tick.ask,
          time_reads tick.time_utc.utc,
          bid_positive,
          ask_positive,
          in_order,
        )
        refl

  abbrev pub position_of : BackendPosition → Position
  position_of p = record {
    position_id = pr.str_of_int p.ticket;
    symbol = pr.text_of p.symbol;
    side = p.side;
    volume = p.volume;
    open_price = p.price_open;
  }

  side_reads : (side : Side) → parse_side (Json.string (side_text side)) ≡ ok side
  unfolding parse_side
  side_reads Side.buy = refl
  side_reads Side.sell = refl

  parse_position-position_response :
      (p : BackendPosition)
      → pos 0 <ℤ p.volume
      → parse_position py (position_response pr p) ≡ ok (position_of p)
  unfolding parse_position require_field lookup position_response str
  parse_position-position_response p h =
      let positive : leb_ℤ p.volume (pos 0) ≡ false = ground arith in
      rw (side_reads p.side, decimal_reads p.volume, decimal_reads p.price_open, positive) refl

  parse_position_items-position_items :
      (ps : List BackendPosition)
      → All (λ p. pos 0 <ℤ p.volume) ps
      → parse_position_items py (position_items pr ps) ≡ ok (map position_of ps)
  unfolding parse_position_items position_items require_mapping
  parse_position_items-position_items [] h = refl
  parse_position_items-position_items (p ∷ ps) (positive, h) =
      rw (parse_position-position_response p positive, parse_position_items-position_items ps h)
        refl

  -- When the text of a decimal and of a time read back as what they were written for, the client reads
  -- the bridge's list of positions of positive volume as the same positions in the same order: none is
  -- lost, which the limit on the number of positions relies on.
  pub parse_positions-positions_response :
      (ps : List BackendPosition)
      → All (λ p. pos 0 <ℤ p.volume) ps
      → parse_positions py (positions_response pr ps) ≡ ok (map position_of ps)
  unfolding parse_positions positions_response require_field lookup
  parse_positions-positions_response ps h = parse_position_items-position_items ps h
