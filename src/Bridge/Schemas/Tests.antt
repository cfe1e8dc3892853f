-- ===== src/Bridge/Schemas/Tests.antt =====
-- A printer and a reader of decimals that agree, and bodies read back with them.
use Prim.Native.Char.{code}
use Prim.Native.String.{String}
use tradingia.Prelude.{
  ℕ, ℤ, pos, negsuc, zero, suc, ◌==◌, Bool, true, false, Option, none, some, [], ◌∷◌, ◌≡◌, refl, ap,
  ◌∙◌, arith, if◌then◌else◌,
}
use tradingia.Prelude.Result.{ok}
use tradingia.Execution.Domain.{Side}
use tradingia.Execution.QuoteFreshness.{Timestamp}
use tradingia.Execution.Remote.Json.{Python}
use tradingia.Execution.Remote.Answers.{parse_quote, parse_positions}
use tradingia.Bridge.Backend.{BackendTick, BackendPosition}
use tradingia.Bridge.Schemas.{Printer, quote_response, positions_response}
use tradingia.Bridge.Schemas.RoundTrip.{
  Reads, parse_quote-quote_response, parse_positions-positions_response,
}

-- numbers in unary, after a sign
abbrev ticks : ℕ → String
ticks zero = String.[]
ticks (suc n) = String.◌∷◌ "a" (ticks n)

abbrev count : String → ℕ
count String.[] = zero
count (String.◌∷◌ c s) = suc (count s)

abbrev print : ℤ → String
print (pos n) = String.◌∷◌ "p" (ticks n)
print (negsuc n) = String.◌∷◌ "n" (ticks n)

abbrev read : String → Option ℤ
read String.[] = none
read (String.◌∷◌ c s) = if code c == 112 then some (pos (count s)) else some (negsuc (count s))

count-ticks : (n : ℕ) → count (ticks n) ≡ n
count-ticks zero = refl
count-ticks (suc n) = ap suc (count-ticks n)

read-print : (z : ℤ) → read (print z) ≡ some z
read-print (pos n) = ap (λ k. some (pos k)) (count-ticks n)
read-print (negsuc n) = ap (λ k. some (negsuc k)) (count-ticks n)

abbrev printer : Printer
printer = record {
  str_of_decimal = print;
  str_of_int = ticks;
  isoformat = print;
  text_of = λ n. "EURUSD";
}

abbrev timestamp_of : Option ℤ → Option Timestamp
timestamp_of none = none
timestamp_of (some t) = some (record { utc = t; aware = true })

abbrev python : Python
python = record {
  decimal_of = read;
  decimal_of_int = λ n. n;
  str_of_decimal = print;
  str_of = λ v. "None";
  replace_zulu = λ s. s;
  fromisoformat = λ s. timestamp_of (read s);
  isoformat = λ t. print t.utc;
  urlquote = λ s. s;
  mentions_error = λ s. false;
}

one_way : (b : Bool) (s : String) → (if b then s else s) ≡ s
one_way true s = refl
one_way false s = refl

python-Reads : Reads printer python
python-Reads = record {
  decimals = read-print;
  times =
      λ t. ap (λ s. timestamp_of (read s)) (one_way _ (print t)) ∙ ap timestamp_of (read-print t);
}

abbrev tick : BackendTick
tick = record {
  symbol = 7;
  time_utc = record { utc = pos 3; aware = true };
  bid = pos 4;
  ask = pos 5;
}

abbrev position : BackendPosition
position = record {
  ticket = 2;
  symbol = 7;
  side = Side.sell;
  volume = pos 1;
  price_open = pos 6;
  magic = none;
  comment = none;
}

parse_quote-quote_response_example :
    parse_quote python (quote_response printer tick) "EURUSD"
    ≡ ok (record {
      symbol = "EURUSD";
      bid = pos 4;
      ask = pos 5;
      timestamp = record { utc = pos 3; aware = true };
    })
parse_quote-quote_response_example =
    parse_quote-quote_response printer python python-Reads tick (omega arith) (omega arith)

parse_positions-positions_response_example :
    parse_positions python (positions_response printer (position ∷ []))
    ≡ ok (
        record {
          position_id = "aa";
          symbol = "EURUSD";
          side = Side.sell;
          volume = pos 1;
          open_price = pos 6;
        }
        ∷ [])
parse_positions-positions_response_example =
    parse_positions-positions_response printer python python-Reads (position ∷ []) (omega arith, tt)
