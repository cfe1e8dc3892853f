-- ===== src/Bridge/Trading/Runs.antt =====
-- Before and after an action of a write request, one rule for each way to build one.
use tradingia.Prelude.{◌≡◌, refl}
use tradingia.Prelude.Result.{Result, ok, err}
use tradingia.Bridge.Store.{TradingCode}
use tradingia.Bridge.Trading.Monad.{
  Failure, trading, conflict, backend_error, type_error, World, Action, lift, ◌>>=◌, except_trading,
  note_conflict,
}

-- `Q` after a return, with its value, and `E` after a raise
abbrev pub Ended :
    {A : Type 0} → (A → World → Type 0) → (World → Type 0) → Result Failure A × World → Type 0
Ended Q E (ok a, w) = Q a w
Ended Q E (err _, w) = E w

pub record Returns {A : Type 0} (P : World → Type 0) (m : Action A) (Q : A → World → Type 0)
    (E : World → Type 0) : Type 0 where
  pub at : (w : World) → P w → Ended Q E (m w)

-- the same where the value does not matter
abbrev pub Runs :
    {A : Type 0} → (World → Type 0) → Action A → (World → Type 0) → (World → Type 0) → Type 0
Runs P m Q E = Returns P m (λ _. Q) E

-- what holds after a return and after a raise holds of the state
pub state_of_Ended :
    {A : Type 0} (E : World → Type 0) (x : Result Failure A × World) → Ended (λ _. E) E x → E x.1
state_of_Ended E (ok a, w) h = h
state_of_Ended E (err e, w) h = h

module _ {A : Type 0} {P : World → Type 0} {Q : A → World → Type 0} {E : World → Type 0} where
  pub Returns-lift :
      (r : Result Failure A)
      → ((a : A) (w : World) → r ≡ ok a → P w → Q a w)
      → ((w : World) → P w → E w)
      → Returns P (lift r) Q E
  unfolding lift
  Returns-lift (ok a) pq pe = record { at = λ w p. pq a w refl p }
  Returns-lift (err e) pq pe = record { at = pe }

  pub Returns-except :
      (m : Action A) (handler : TradingCode → Action A) {H : World → Type 0}
      → Returns P m Q H
      → ((code : TradingCode) → Returns H (handler code) Q E)
      → ((w : World) → H w → E w)
      → Returns P (except_trading m handler) Q E
  unfolding except_trading
  Returns-except m handler {H} rm rh he = record {
    at = λ w p. let (r, w') = m w in go r w' (rm.at w p);
  }
    where
      go :
          (r : Result Failure A) (w' : World)
          → Ended Q H (r, w')
          → Ended Q E (except_trading (λ _. (r, w')) handler w')
      go (ok a) w' h = h
      go (err (trading code)) w' h = (rh code).at w' h
      go (err conflict) w' h = he w' h
      go (err backend_error) w' h = he w' h
      go (err type_error) w' h = he w' h

  pub Returns-weaken :
      {P' : World → Type 0} (m : Action A)
      → ((w : World) → P' w → P w)
      → Returns P m Q E
      → Returns P' m Q E
  Returns-weaken m imp r = record { at = λ w p. r.at w (imp w p) }

  -- a fact that does not depend on the state, taken out of the precondition
  pub Returns-fact :
      {F : Type 0} (m : Action A) → (F → Returns P m Q E) → Returns (λ w. P w × F) m Q E
  Returns-fact m r = record { at = λ w p. (r p.1).at w p.0 }

  -- the note is written after a raise, and whatever it does the exception goes on
  pub Returns-note :
      (m : Action A) (note : Action (Unit {0})) {H : World → Type 0}
      → Returns P m Q H
      → Runs H note E E
      → Returns P (note_conflict m note) Q E
  unfolding note_conflict
  Returns-note m note {H} rm rn = record { at = λ w p. let (r, w') = m w in go r w' (rm.at w p) }
    where
      go :
          (r : Result Failure A) (w' : World)
          → Ended Q H (r, w')
          → Ended Q E (note_conflict (λ _. (r, w')) note w')
      go (ok a) w' h = h
      go (err e) w' h = state_of_Ended E (note w') (rn.at w' h)

module _ {A B : Type 0} {P : World → Type 0} {R : A → World → Type 0} {Q : B → World → Type 0}
    {E : World → Type 0} where
  pub Returns-bind :
      (m : Action A) (f : A → Action B)
      → Returns P m R E
      → ((a : A) → Returns (R a) (f a) Q E)
      → Returns P (m >>= f) Q E
  unfolding ◌>>=◌
  Returns-bind m f rm rf = record { at = λ w p. let (r, w') = m w in go r w' (rm.at w p) }
    where
      go :
          (r : Result Failure A) (w' : World)
          → Ended R E (r, w')
          → Ended Q E (((λ _. (r, w')) >>= f) w')
      go (ok a) w' h = (rf a).at w' h
      go (err e) w' h = h
