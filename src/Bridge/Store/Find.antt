-- ===== src/Bridge/Store/Find.antt =====
-- The row that is found for an id, after each statement of mt5_bridge/store.py.
use tradingia.Prelude.{
  ℕ, ◌≡◌, ◌≢◌, ◌==◌, Bool, Option, none, some, List, [], ◌∷◌, ◌++◌, arith, if◌then◌else◌,
  Bool-cases, inl, inr, ap,
}
use tradingia.Execution.Domain.{Name}
use tradingia.Bridge.Store.{
  OrderState, IdempotencyRecord, Outcome, fresh_record, update_row, find_row, update_rows,
}

-- one row under an UPDATE
abbrev pub updated :
    (IdempotencyRecord → Bool) → OrderState → Outcome → ℕ → IdempotencyRecord → IdempotencyRecord
updated hit new out now r = if hit r then update_row new out now r else r

abbrev on_found :
    (IdempotencyRecord → IdempotencyRecord) → Option IdempotencyRecord → Option IdempotencyRecord
on_found f none = none
on_found f (some r) = some (f r)

pub find_row-insert_self :
    (id hash now : ℕ) (t : List IdempotencyRecord)
    → find_row id t ≡ none
    → find_row id (t ++ fresh_record id hash now ∷ []) ≡ some (fresh_record id hash now)
unfolding find_row
find_row-insert_self id hash now [] h = ground arith
find_row-insert_self id hash now (r ∷ rs) h = ground (arith, find_row-insert_self id hash now rs)

pub find_row-insert_ne :
    (id j hash now : ℕ) (t : List IdempotencyRecord)
    → id ≢ j
    → find_row id (t ++ fresh_record j hash now ∷ []) ≡ find_row id t
unfolding find_row
find_row-insert_ne id j hash now [] h = ground arith
find_row-insert_ne id j hash now (r ∷ rs) h = ground (arith, find_row-insert_ne id j hash now rs h)

-- the row that is found has the id
pub find_row_id :
    (id : Name) (t : List IdempotencyRecord) (r : IdempotencyRecord)
    → find_row id t ≡ some r
    → r.client_order_id ≡ id
unfolding find_row
find_row_id id [] r h = cc
find_row_id id (x ∷ rs) r h = ground (arith, find_row_id id rs r)

module _ (hit : IdempotencyRecord → Bool) (new : OrderState) (out : Outcome) (now : ℕ) where
  updated_id :
      (r : IdempotencyRecord) → (updated hit new out now r).client_order_id ≡ r.client_order_id
  updated_id r = elim (Bool-cases (hit r)) [ inl yes_hit ↦ rw yes_hit | inr no_hit ↦ rw no_hit ]

  pub find_row-update :
      (id : Name) (t : List IdempotencyRecord) (r : IdempotencyRecord)
      → find_row id t ≡ some r
      → find_row id (update_rows hit new out now t) ≡ some (updated hit new out now r)
  unfolding find_row update_rows
  find_row-update id [] r h = cc
  find_row-update id (x ∷ rs) r h = elim (Bool-cases (x.client_order_id == id)) [
    | inl here ↦ rw (updated_id x, here) (ap (on_found (updated hit new out now)) (rw here at h))
    | inr there ↦ rw (updated_id x, there) (find_row-update id rs r (rw there at h))
  ]
