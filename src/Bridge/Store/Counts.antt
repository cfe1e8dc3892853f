-- ===== src/Bridge/Store/Counts.antt =====
-- How many rows a table has for an id, and how many of them are RECEIVED, under each statement of
-- mt5_bridge/store.py.
use tradingia.Prelude.{
  ℕ, ◌+◌, ◌≤◌, ◌≡◌, refl, ◌==◌, Bool, false, ◌&&◌, none, List, [], ◌∷◌, ◌++◌, arith, length, keep,
  if◌then◌else◌,
}
use tradingia.Execution.Domain.{Name}
use tradingia.Bridge.Store.{
  OrderState, same_state, IdempotencyRecord, Outcome, fresh_record, find_row, update_rows,
}

-- 1 where a test holds
abbrev pub one_if : Bool → ℕ
one_if b = if b then 1 else 0

unfoldable pub rows_of : Name → List IdempotencyRecord → ℕ
rows_of id [] = 0
rows_of id (r ∷ rs) = one_if (r.client_order_id == id) + rows_of id rs

unfoldable pub received_of : Name → List IdempotencyRecord → ℕ
received_of id [] = 0
received_of id (r ∷ rs) =
    one_if (r.client_order_id == id && same_state r.state OrderState.received) + received_of id rs

pub received-le-rows : (id : Name) (t : List IdempotencyRecord) → received_of id t ≤ rows_of id t
unfolding rows_of received_of
received-le-rows id [] = omega arith
received-le-rows id (r ∷ rs) = ground (arith, received-le-rows id rs)

pub rows-insert :
    (id j : Name) (hash now : ℕ) (t : List IdempotencyRecord)
    → rows_of id (t ++ fresh_record j hash now ∷ []) ≡ rows_of id t + one_if (j == id)
unfolding rows_of
rows-insert id j hash now [] = ground arith
rows-insert id j hash now (r ∷ rs) = ground (arith, rows-insert id j hash now rs)

pub received-insert :
    (id j : Name) (hash now : ℕ) (t : List IdempotencyRecord)
    → received_of id (t ++ fresh_record j hash now ∷ []) ≡ received_of id t + one_if (j == id)
unfolding received_of same_state
received-insert id j hash now [] = ground arith
received-insert id j hash now (r ∷ rs) = ground (arith, received-insert id j hash now rs)

pub rows_of_absent :
    (id : Name) (t : List IdempotencyRecord) → find_row id t ≡ none → rows_of id t ≡ 0
unfolding rows_of find_row
rows_of_absent id [] h = refl
rows_of_absent id (r ∷ rs) h = ground (arith, rows_of_absent id rs)

module _ (hit : IdempotencyRecord → Bool) (new : OrderState) (out : Outcome) (now : ℕ) where
  pub rows-update :
      (id : Name) (t : List IdempotencyRecord)
      → rows_of id (update_rows hit new out now t) ≡ rows_of id t
  unfolding rows_of update_rows
  rows-update id [] = refl
  rows-update id (r ∷ rs) = ground (arith, rows-update id rs)

  pub received-update :
      (id : Name) (t : List IdempotencyRecord)
      → same_state new OrderState.received ≡ false
      → received_of id (update_rows hit new out now t) ≤ received_of id t
  unfolding received_of update_rows
  received-update id [] h = omega arith
  received-update id (r ∷ rs) h = ground (arith, received-update id rs h)

-- the rows that a transition from RECEIVED is for
abbrev pub is_received_row : Name → IdempotencyRecord → Bool
is_received_row id r = r.client_order_id == id && same_state r.state OrderState.received

pub length-keep-received :
    (id : Name) (t : List IdempotencyRecord)
    → length (keep (is_received_row id) t) ≡ received_of id t
unfolding received_of
length-keep-received id [] = refl
length-keep-received id (r ∷ rs) = ground (arith, length-keep-received id rs)

-- after the transition no row of the id is RECEIVED
pub received-leave :
    (id : Name) (new : OrderState) (out : Outcome) (now : ℕ) (t : List IdempotencyRecord)
    → same_state new OrderState.received ≡ false
    → received_of id (update_rows (is_received_row id) new out now t) ≡ 0
unfolding received_of update_rows
received-leave id new out now [] h = refl
received-leave id new out now (r ∷ rs) h = ground (arith, received-leave id new out now rs h)
