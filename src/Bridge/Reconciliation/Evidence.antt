-- ===== src/Bridge/Reconciliation/Evidence.antt =====
-- What resolve_received_attempt (mt5_bridge/reconciliation.py) looks for before it closes a row.
use tradingia.Prelude.{
  ℕ, ◌≡◌, ◌≢◌, refl, sym, ◌∙◌, Bool, Bool-cases, true, false, ◌&&◌, Option, none, some, List, [],
  ◌∷◌, arith, is_empty, keep, All, All-keep, keep-All, Option-cases, inl, inr,
}
use tradingia.Prelude.Result.{ok}
use tradingia.Execution.Domain.{Name}
use tradingia.Bridge.Backend.{Backend, BackendPosition, BackendOrder}
use tradingia.Bridge.Identity.{Hashing, build_mt5_comment}
use tradingia.Bridge.Store.{
  BridgeStore, IdempotencyRecord, OrderState, JournalEntry, JournalAction, Flow, Event, same_state,
  get_idempotency_record, read_journal_for_client_order_id, names_order,
}
use tradingia.Bridge.Reconciliation.{
  is, has_identifiers_set, in_terminal, is_unsafe_action, may_resolve,
}

-- the columns that a submission fills are all empty
pub record IsUnanswered (r : IdempotencyRecord) : Type 0 where
  pub no_order : r.broker_order_id ≡ none
  pub no_deal : r.deal_id ≡ none
  pub no_position : r.position_id ≡ none
  pub no_payload : r.result_payload ≡ none

-- none of the actions that are written once an order may have left
abbrev pub IsHarmless : JournalAction → Type 0
IsHarmless a =
    (f : Flow)
    → (a ≢ JournalAction.at f Event.submitting)
      × (a ≢ JournalAction.at f Event.crash_during_send)
      × (a ≢ JournalAction.at f Event.filled)

-- a position or an order with this magic number and comment was not placed for the tag
abbrev pub IsForeign : ℕ → Name → Option ℕ → Option Name → Type 0
IsForeign magic tag m comment = m ≡ some magic → comment ≢ some tag

-- The row is RECEIVED, and no submission shows in its columns, in the journal's entries about it, or
-- in the positions and orders that the terminal, which answers, lists under its tag.
pub record IsResolvable (h : Hashing) (b : Backend) (magic : ℕ) (id : Name) (s : BridgeStore)
    : Type 0 where
  pub found :
      (r : IdempotencyRecord) × (get_idempotency_record id s ≡ some r)
      × (r.state ≡ OrderState.received)
      × IsUnanswered r
  pub harmless : All (λ e. e.client_order_id ≡ some id → IsHarmless e.action) s.journal
  pub positions :
      (ps : List BackendPosition) × (b.positions_get ≡ some ps)
      × All (λ p. IsForeign magic (h.order_tag id) p.magic p.comment) ps
  pub orders :
      (os : List BackendOrder) × (b.orders_get ≡ some os)
      × All (λ o. IsForeign magic (h.order_tag id) o.magic o.comment) os

has_identifiers_set-IsUnanswered :
    (r : IdempotencyRecord) → has_identifiers_set r ≡ false → IsUnanswered r
unfolding has_identifiers_set
has_identifiers_set-IsUnanswered r e = ground arith

IsUnanswered-has_identifiers_set :
    (r : IdempotencyRecord) → IsUnanswered r → has_identifiers_set r ≡ false
unfolding has_identifiers_set
IsUnanswered-has_identifiers_set r e = ground arith

same-received :
    (st : OrderState) → same_state st OrderState.received ≡ true → st ≡ OrderState.received
unfolding same_state
same-received st e = ground arith

is_unsafe_action-IsHarmless : (a : JournalAction) → is_unsafe_action a ≡ false → IsHarmless a
is_unsafe_action-IsHarmless a h f = (λ e. cc (rw e at h), λ e. cc (rw e at h), λ e. cc (rw e at h))

IsHarmless-is_unsafe_action : (a : JournalAction) → IsHarmless a → is_unsafe_action a ≡ false
IsHarmless-is_unsafe_action (JournalAction.at f event) h = let (s, c, d) = h f in ground arith
IsHarmless-is_unsafe_action JournalAction.received_resolved h = refl

keep_both {ℓ} :
    {A : Type ℓ} (p q : A → Bool) (xs : List A) → keep p (keep q xs) ≡ keep (λ x. q x && p x) xs
keep_both p q [] = refl
keep_both p q (x ∷ xs) = ground (arith, keep_both p q xs)

none_kept {ℓ} : {A : Type ℓ} (xs : List A) → is_empty xs ≡ true → xs ≡ []
none_kept [] h = refl
none_kept (x ∷ xs) h = cc

is-IsForeign :
    (magic : ℕ) (tag : Name) (m : Option ℕ) (comment : Option Name)
    → is magic m && is tag comment ≡ false
    → IsForeign magic tag m comment
is-IsForeign magic tag m comment h = ground arith

IsForeign-is :
    (magic : ℕ) (tag : Name) (m : Option ℕ) (comment : Option Name)
    → IsForeign magic tag m comment
    → is magic m && is tag comment ≡ false
IsForeign-is magic tag m comment h = ground arith

module _ (magic : ℕ) (tag : Name) (ps : List BackendPosition) (os : List BackendOrder) where
  abbrev AllForeign : Type 0
  AllForeign =
      All (λ p. IsForeign magic tag p.magic p.comment) ps
      × All (λ o. IsForeign magic tag o.magic o.comment) os

  in_terminal-AllForeign : in_terminal magic tag ps os ≡ false → AllForeign
  unfolding in_terminal
  in_terminal-AllForeign h = (
    All-keep _ _ ps (λ p. is-IsForeign magic tag p.magic p.comment) (none_kept _ (ground arith)),
    All-keep _ _ os (λ o. is-IsForeign magic tag o.magic o.comment) (none_kept _ (ground arith)),
  )

  AllForeign-in_terminal : AllForeign → in_terminal magic tag ps os ≡ false
  unfolding in_terminal
  AllForeign-in_terminal (fp, fo) =
      rw
        (
          keep-All _ (λ p. is magic p.magic && is tag p.comment) ps
              (λ p. IsForeign-is magic tag p.magic p.comment) fp,
          keep-All _ (λ o. is magic o.magic && is tag o.comment) os
              (λ o. IsForeign-is magic tag o.magic o.comment) fo,
        )
        refl

module _ (id : Name) (s : BridgeStore) where
  abbrev AllHarmless : Type 0
  AllHarmless = All (λ e. e.client_order_id ≡ some id → IsHarmless e.action) s.journal

  abbrev unsafe_entries : List JournalEntry
  unsafe_entries = keep (λ e. is_unsafe_action e.action) (read_journal_for_client_order_id id s)

  abbrev is_unsafe_entry : JournalEntry → Bool
  is_unsafe_entry e = names_order id e.client_order_id && is_unsafe_action e.action

  unsafe_entries_lem : unsafe_entries ≡ keep is_unsafe_entry s.journal
  unfolding read_journal_for_client_order_id
  unsafe_entries_lem = keep_both _ _ s.journal

  safe_entry :
      (co : Option Name) (a : JournalAction)
      → (co ≡ some id → IsHarmless a)
      → names_order id co && is_unsafe_action a ≡ false
  safe_entry co a h = elim (Bool-cases (names_order id co)) [
    | inl own ↦ rw (own, IsHarmless-is_unsafe_action a (h (ground arith))) refl
    | inr other ↦ rw other refl
  ]

  journal-AllHarmless : is_empty unsafe_entries ≡ true → AllHarmless
  journal-AllHarmless h =
      All-keep _ is_unsafe_entry s.journal
        (λ e safe own. is_unsafe_action-IsHarmless e.action (ground arith))
        (sym unsafe_entries_lem ∙ none_kept unsafe_entries h)

  AllHarmless-journal : AllHarmless → is_empty unsafe_entries ≡ true
  AllHarmless-journal h =
      rw
        (
          unsafe_entries_lem,
          keep-All _ is_unsafe_entry s.journal (λ e. safe_entry e.client_order_id e.action) h,
        )
        refl

module _ (h : Hashing) (b : Backend) (magic : ℕ) (id : Name) (s : BridgeStore) where
  pub may_resolve-IsResolvable : may_resolve h b magic id s ≡ ok tt → IsResolvable h b magic id s
  unfolding may_resolve build_mt5_comment
  may_resolve-IsResolvable e =
      let harmless = journal-AllHarmless id s (ground arith) in
      elim (Option-cases (get_idempotency_record id s)) [
        | inl absent ↦ absurd (ground arith)
        | inr (r, found) ↦ elim (Option-cases b.positions_get) [
          | inl silent ↦ absurd (ground arith)
          | inr (ps, positions) ↦ elim (Option-cases b.orders_get) [
            | inl silent ↦ absurd (ground arith)
            | inr (os, orders) ↦
                let foreign = in_terminal-AllForeign magic (h.order_tag id) ps os (ground arith) in
                record {
                  found = (
                    r,
                    found,
                    same-received r.state (ground arith),
                    has_identifiers_set-IsUnanswered r (ground arith),
                  );
                  harmless = harmless;
                  positions = (ps, positions, foreign.0);
                  orders = (os, orders, foreign.1);
                }
          ]
        ]
      ]

  pub IsResolvable-may_resolve : IsResolvable h b magic id s → may_resolve h b magic id s ≡ ok tt
  unfolding may_resolve build_mt5_comment same_state
  IsResolvable-may_resolve p =
      let (r, found, received, clean) = p.found in
      let (ps, positions, fp) = p.positions in
      let (os, orders, fo) = p.orders in
      rw
        (
          may_resolve,
          found,
          IsUnanswered-has_identifiers_set r clean,
          received,
          AllHarmless-journal id s p.harmless,
          positions,
          orders,
          AllForeign-in_terminal magic (h.order_tag id) ps os (fp, fo),
        )
        refl
