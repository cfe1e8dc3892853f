-- ===== src/Bridge/Trading/Conflict.antt =====
-- An id that is used again for something else (place_demo_order, mt5_bridge/trading.py).
use tradingia.Prelude.{◌≡◌, ◌≢◌, some, sym, ◌∙◌, arith}
use tradingia.Prelude.Result.{ok, err}
use tradingia.Bridge.Identity.{Hashing, open_fields, compute_request_fingerprint}
use tradingia.Bridge.Store.{IdempotencyRecord, find_row, begin_idempotent_request}
use tradingia.Bridge.Trading.{
  conflict, Env, World, DemoOrderRequest, DemoOrderResult, place_demo_order,
  require_fresh_demo_account, journal, ◌>>=◌,
}
use tradingia.Bridge.Trading.Replay.{row_of_success}

module _ (h : Hashing) where
  other_fingerprint :
      (env : Env) (request : DemoOrderRequest) (w : World) (r : IdempotencyRecord)
      → require_fresh_demo_account env ≡ ok tt
      → find_row request.client_order_id w.store.idempotency ≡ some r
      → r.request_hash
        ≢ compute_request_fingerprint h (open_fields request.symbol request.side request.volume)
      → let x = place_demo_order h env request w in
        (x.0 ≡ err conflict) × (x.1.sent ≡ w.sent) × (x.1.store.idempotency ≡ w.store.idempotency)
  unfolding place_demo_order journal begin_idempotent_request ◌>>=◌
  other_fingerprint env request w r demo found other = (ground arith, ground arith, ground arith)

  -- After a request to open has returned a result, a request with the same id, whose symbol, side and
  -- volume hash to something else, is refused as a conflict in any later environment that passes the
  -- DEMO check: nothing is sent, and no row changes.
  pub other_request_conflicts :
      (first later : Env) (request other : DemoOrderRequest) (w : World) {w' : World}
      {result : DemoOrderResult}
      → place_demo_order h first request w ≡ (ok result, w')
      → other.client_order_id ≡ request.client_order_id
      → h.sha256_of_fields (open_fields other.symbol other.side other.volume)
        ≢ h.sha256_of_fields (open_fields request.symbol request.side request.volume)
      → require_fresh_demo_account later ≡ ok tt
      → let x = place_demo_order h later other w' in
        (x.0 ≡ err conflict) × (x.1.sent ≡ w'.sent) × (x.1.store.idempotency ≡ w'.store.idempotency)
  unfolding compute_request_fingerprint
  other_request_conflicts first later request other w {w'} {result} e same differ demo =
      let (row, st, found, own, stored) = row_of_success h first request w w' result e in
      other_fingerprint later other w' row demo (rw same found) λ hash. differ (sym hash ∙ own)
