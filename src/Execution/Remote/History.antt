-- ===== src/Execution/Remote/History.antt =====
-- What a history satisfies once the client has read it (src/execution/mt5_remote.py).
use Prim.Native.String.{String}
use tradingia.Prelude.{
  ◌<ℤ◌, ◌≤ℤ◌, leb_ℤ, Bool, true, false, not, List, [], ◌∷◌, All, ◌≡◌, refl, sym, arith, if-split,
  inl, inr,
}
use tradingia.Prelude.Result.{Result, ok, ◌>>=◌, >>=-ok, raise_if-ok, ok-injective}
use tradingia.Execution.Remote.Json.{Json, Items, Fields, Python, lookup}
use tradingia.Execution.Remote.Values.{
  ClientError, require_mapping, require_field, parse_decimal, parse_optional_decimal,
  parse_utc_timestamp, parse_optional_int,
}
use tradingia.Execution.Remote.Listings.{
  HistoryBar, HistoryResult, parse_all, parse_list, below_any, above_any, times_increase,
  parse_history_bar, parse_history,
}

-- the low and the high enclose the open and the close
pub record IsBar (symbol : String) (b : HistoryBar) : Type 0 where
  pub named : b.symbol ≡ symbol
  pub low_open : b.low ≤ℤ b.open_price
  pub low_close : b.low ≤ℤ b.close
  pub open_high : b.open_price ≤ℤ b.high
  pub close_high : b.close ≤ℤ b.high

abbrev pub Increasing : List HistoryBar → Type 0
Increasing [] = Unit
Increasing (b ∷ []) = Unit
Increasing (b ∷ c ∷ bars) = (b.timestamp.utc <ℤ c.timestamp.utc) × Increasing (c ∷ bars)

times_increase-Increasing : (bars : List HistoryBar) → times_increase bars ≡ true → Increasing bars
unfolding times_increase
times_increase-Increasing [] h = tt
times_increase-Increasing (b ∷ []) h = tt
times_increase-Increasing (b ∷ c ∷ bars) h =
    elim (if-split (leb_ℤ c.timestamp.utc b.timestamp.utc) _ _ h) [
      | inl (late, h') ↦ absurd (ground arith)
      | inr (later, h') ↦ (ground arith, times_increase-Increasing (c ∷ bars) h')
    ]

parse_all-All {ℓ κ} :
    {A : Type ℓ} (P : A → Type κ) (f : Fields → Result ClientError A)
    → ((payload : Fields) (a : A) → f payload ≡ ok a → P a)
    → (vs : Items) (found : List A) → parse_all f vs ≡ ok found
    → All P found
unfolding parse_all
parse_all-All P f each Items.nil found h = rw (sym (ok-injective (ok []) refl h)) tt
parse_all-All P f each (Items.cons v vs) found h =
    let (a, read, h1) = >>=-ok (require_mapping v >>= f) _ h in
    let (rest, read_rest, h2) = >>=-ok (parse_all f vs) _ h1 in
    let (payload, mapped, parsed) = >>=-ok (require_mapping v) _ read in
    rw (sym (ok-injective (ok (a ∷ rest)) refl h2))
      (each payload a parsed, parse_all-All P f each vs rest read_rest)

parse_list-All {ℓ κ} :
    {A : Type ℓ} (P : A → Type κ) (f : Fields → Result ClientError A)
    → ((payload : Fields) (a : A) → f payload ≡ ok a → P a)
    → (v : Json) (found : List A) → parse_list f v ≡ ok found
    → All P found
unfolding parse_list
parse_list-All P f each (Json.array vs) found h = parse_all-All P f each vs found h
parse_list-All P f each Json.null found h = absurd (ground arith)
parse_list-All P f each (Json.boolean b) found h = absurd (ground arith)
parse_list-All P f each (Json.integer n) found h = absurd (ground arith)
parse_list-All P f each (Json.fraction t) found h = absurd (ground arith)
parse_list-All P f each (Json.string t) found h = absurd (ground arith)
parse_list-All P f each (Json.object fs) found h = absurd (ground arith)

passes : (b : Bool) → not b ≡ false → b ≡ true
passes b h = ground arith

module _ (py : Python) where
  parse_history_bar-IsBar :
      (symbol : String) (payload : Fields) (b : HistoryBar)
      → parse_history_bar py symbol payload ≡ ok b
      → IsBar symbol b
  unfolding parse_history_bar
  parse_history_bar-IsBar symbol payload b h =
      let (timestamp, r1, h1) =
        >>=-ok (require_field payload "timestamp" >>= parse_utc_timestamp py) _ h in
      let (open_price, r2, h2) = >>=-ok (require_field payload "open" >>= parse_decimal py) _ h1 in
      let (high, r3, h3) = >>=-ok (require_field payload "high" >>= parse_decimal py) _ h2 in
      let (low, r4, h4) = >>=-ok (require_field payload "low" >>= parse_decimal py) _ h3 in
      let (close, r5, h5) = >>=-ok (require_field payload "close" >>= parse_decimal py) _ h4 in
      let (tick_volume, r6, h6) =
        >>=-ok (require_field payload "tick_volume" >>= parse_decimal py) _ h5 in
      let (real_volume, r7, h7) =
        >>=-ok (parse_optional_decimal py (lookup "real_volume" payload)) _ h6 in
      let (spread, r8, h8) = >>=-ok (parse_optional_int (lookup "spread" payload)) _ h7 in
      let (high_top, h9) = raise_if-ok (below_any high open_price close low) _ _ h8 in
      let (low_bottom, h10) = raise_if-ok (above_any low open_price close high) _ _ h9 in
      rw (sym (ok-injective (ok _) refl h10)) (record {
        named = refl;
        low_open = ground arith;
        low_close = ground arith;
        open_high = ground arith;
        close_high = ground arith;
      })

  -- A history that the client accepts is for the symbol that was asked for: each of its bars carries
  -- it and has a low and a high that enclose its open and close, and their times strictly increase.
  pub parse_history-Increasing :
      (payload : Fields) (requested : String) (r : HistoryResult)
      → parse_history py payload requested ≡ ok r
      → (r.symbol ≡ requested) × All (IsBar requested) r.bars × Increasing r.bars
  unfolding parse_history
  parse_history-Increasing payload requested r h =
      let bar = parse_history_bar py requested in
      let (bars, read, h1) = >>=-ok (require_field payload "bars" >>= parse_list bar) _ h in
      let (raw, found, parsed) = >>=-ok (require_field payload "bars") _ read in
      let (ordered, h2) = raise_if-ok (not (times_increase bars)) _ _ h1 in
      rw (sym (ok-injective (ok _) refl h2)) (
        refl,
        parse_list-All (IsBar requested) bar (parse_history_bar-IsBar requested) raw bars parsed,
        times_increase-Increasing bars (passes (times_increase bars) ordered),
      )
