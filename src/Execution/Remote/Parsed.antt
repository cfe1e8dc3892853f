-- ===== src/Execution/Remote/Parsed.antt =====
-- What an answer satisfies once the client has read it (src/execution/mt5_remote.py).
use Prim.Native.String.{String}
use text.Mathlib.TextEquality.{eq_iff}
use tradingia.Prelude.{
  pos, ◌<ℤ◌, ◌≤ℤ◌, leb_ℤ, ltb_ℤ, Bool, true, false, not, Option, none, some, get_or, ◌≡◌, refl, sym,
  ap, ◌∙◌, ◌⊎◌, inl, inr, arith, if-split, if◌then◌else◌,
}
use tradingia.Prelude.Result.{ok, ◌>>=◌, raise_if, >>=-ok, raise_if-ok, ok-injective}
use tradingia.Execution.QuoteFreshness.{Timestamp}
use tradingia.Execution.Remote.Json.{Json, Fields, Python, lookup, is_text, ends_with_z}
use tradingia.Execution.Remote.Values.{
  ClientError, require_field, or_protocol, aware_only, parse_decimal, parse_utc_timestamp,
}
use tradingia.Execution.Remote.Answers.{check_symbol, parse_quote}
use tradingia.Execution.Remote.Records.{Quote}

-- an answer that names a symbol names this one
abbrev pub Names : Fields → String → Type 0
Names payload requested =
    (lookup "symbol" payload ≡ none) ⊎ (lookup "symbol" payload ≡ some (Json.string requested))

is_text-eq : (t : String) (v : Json) → is_text t v ≡ true → v ≡ Json.string t
is_text-eq t (Json.string s) h = ap Json.string ((eq_iff s t).0 h)
is_text-eq t Json.null h = ground arith
is_text-eq t (Json.boolean b) h = ground arith
is_text-eq t (Json.integer n) h = ground arith
is_text-eq t (Json.fraction s) h = ground arith
is_text-eq t (Json.array vs) h = ground arith
is_text-eq t (Json.object fs) h = ground arith

names :
    (o : Option Json) (requested : String)
    → not (is_text requested (get_or o (Json.string requested))) ≡ false
    → (o ≡ none) ⊎ (o ≡ some (Json.string requested))
names none requested h = inl refl
names (some v) requested h = inr (ap some (is_text-eq requested v (ground arith)))

raised : (test : Bool) (e : ClientError) {u : Unit {0}} → raise_if test e ≡ ok u → test ≡ false
raised test e h = ground arith

check_symbol-Names :
    (payload : Fields) (requested : String) {u : Unit {0}}
    → check_symbol payload requested ≡ ok u
    → Names payload requested
unfolding check_symbol
check_symbol-Names payload requested h = names (lookup "symbol" payload) requested (
    raised (not (is_text requested (get_or (lookup "symbol" payload) (Json.string requested)))) _ h)

aware_kept : (raw : Timestamp) {t : Timestamp} → aware_only raw ≡ ok t → t.aware ≡ true
aware_kept raw h = elim (if-split (not raw.aware) _ _ h) [
  | inl (naive, h') ↦ absurd (ground arith)
  | inr (aware, h') ↦
      ap (λ s. s.aware) (sym (ok-injective (ok raw) refl h')) ∙ known raw.aware aware
]
  where
    known : (b : Bool) → not b ≡ false → b ≡ true
    known b e = ground arith

module _ (py : Python) where
  parse_utc_timestamp-aware :
      (v : Json) {t : Timestamp} → parse_utc_timestamp py v ≡ ok t → t.aware ≡ true
  unfolding parse_utc_timestamp
  parse_utc_timestamp-aware (Json.string s) h =
      let (raw, read, kept) =
        >>=-ok (or_protocol (py.fromisoformat (if ends_with_z s then py.replace_zulu s else s))) _
          h in
      aware_kept raw kept
  parse_utc_timestamp-aware Json.null h = ground arith
  parse_utc_timestamp-aware (Json.boolean b) h = ground arith
  parse_utc_timestamp-aware (Json.integer n) h = ground arith
  parse_utc_timestamp-aware (Json.fraction s) h = ground arith
  parse_utc_timestamp-aware (Json.array vs) h = ground arith
  parse_utc_timestamp-aware (Json.object fs) h = ground arith

  -- A quote that the client accepts is for the symbol that was asked for, which the answer names or
  -- leaves out, has a positive bid that is not above the ask, and a timestamp with a time zone.
  pub parse_quote-IsQuote :
      (payload : Fields) (requested : String) (q : Quote)
      → parse_quote py payload requested ≡ ok q
      → (q.symbol ≡ requested)
        × Names payload requested
        × (pos 0 <ℤ q.bid)
        × (q.bid ≤ℤ q.ask)
        × (q.timestamp.aware ≡ true)
  unfolding parse_quote
  parse_quote-IsQuote payload requested q h =
      let (u, named, h1) = >>=-ok (check_symbol payload requested) _ h in
      let (bid, bid_read, h2) = >>=-ok (require_field payload "bid" >>= parse_decimal py) _ h1 in
      let (ask, ask_read, h3) = >>=-ok (require_field payload "ask" >>= parse_decimal py) _ h2 in
      let (timestamp, time_read, h4) =
        >>=-ok (require_field payload "timestamp" >>= parse_utc_timestamp py) _ h3 in
      let (bid_positive, h5) = raise_if-ok (leb_ℤ bid (pos 0)) _ _ h4 in
      let (ask_positive, h6) = raise_if-ok (leb_ℤ ask (pos 0)) _ _ h5 in
      let (in_order, h7) = raise_if-ok (ltb_ℤ ask bid) _ _ h6 in
      let same = ok-injective (ok _) refl h7 in
      let (raw, found, parsed) = >>=-ok (require_field payload "timestamp") _ time_read in
      rw (sym same) (
        refl,
        check_symbol-Names payload requested named,
        ground arith,
        ground arith,
        parse_utc_timestamp-aware raw parsed,
      )
