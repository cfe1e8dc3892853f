-- ===== src/Bridge/Trading/Sent.antt =====
-- What place_demo_order and close_demo_position (mt5_bridge/trading.py) send.
use tradingia.Prelude.{refl, List}
use tradingia.Bridge.Identity.{Hashing}
use tradingia.Bridge.Store.{OrderState, Flow}
use tradingia.Bridge.Trading.{
  Env, World, Send, resume, pure, DemoOrderRequest, DemoCloseRequest, fill_order, fill_close,
  prepare_order, prepare_close, place_new_order, close_now, place_demo_order, close_demo_position,
  choose_close,
}
use tradingia.Bridge.Trading.Runs.{
  Runs, Returns-lift, Returns-except, Returns-note, Returns-bind, Returns-fact, state_of_Ended,
}
use tradingia.Bridge.Trading.Chosen.{
  IsOrderFor, IsCloseOf, choose_order-IsOrderFor, choose_close-IsCloseOf,
}
use tradingia.Bridge.Trading.SendLog.{
  On, journal-On, update-On, try_store-On, lift-On, pure-On, terminalize-On, SentOne, Quiet, One,
  unsent-One, submit_order-One, check_order-Fits, reads-Fits, resume_or-One,
}

module _ (h : Hashing) (env : Env) (before : List Send) where
  place_new_order-One :
      (request : DemoOrderRequest)
      → let One' = On (One request.client_order_id (IsOrderFor env request) before) in
        Runs
          (On (Quiet request.client_order_id (IsOrderFor env request) before))
          (place_new_order h env request)
          One'
          One'
  unfolding place_new_order prepare_order fill_order
  place_new_order-One request =
      let j = request.client_order_id in
      let Fits = IsOrderFor env request in
      let P = Quiet j Fits before in
      let Q = One j Fits before in
      Returns-bind _ _
        (unsent-One j Fits before _ (
          Returns-except _ _
            (Returns-bind _ _
              (reads-Fits j Fits before _
                λ s ready e. choose_order-IsOrderFor h env request s ready e)
              λ ready.
                Returns-fact _
                  λ fits. check_order-Fits j Fits before env Flow.place_order _ ready fits)
            (λ code. terminalize-On P _ env Flow.place_order j code) (λ w q. q)))
        λ ready. Returns-fact _ λ fits.
          Returns-bind _ _ (submit_order-One j Fits before env Flow.place_order _ ready fits) λ r.
            Returns-bind _ _ (update-On Q j OrderState.filled _ env.clock.recorded)
              λ _. Returns-bind _ _ (journal-On Q env j _ _) λ _. pure-On Q _

  close_now-One :
      (request : DemoCloseRequest)
      → let One' = On (One request.client_order_id (IsCloseOf env request) before) in
        Runs
          (On (Quiet request.client_order_id (IsCloseOf env request) before))
          (close_now h env request)
          One'
          One'
  unfolding close_now prepare_close fill_close pure
  close_now-One request =
      let j = request.client_order_id in
      let Fits = IsCloseOf env request in
      let P = Quiet j Fits before in
      let Q = One j Fits before in
      Returns-bind _ _
        (unsent-One j Fits before _ (
          Returns-except _ _
            (Returns-bind _ _
              (Returns-lift {Q = λ chosen w. On P w × Fits chosen.1.trade_request}
                (choose_close h env request)
                (λ chosen w e q. (q, choose_close-IsCloseOf h env request chosen.0 chosen.1 e))
                (λ w q. q))
              λ chosen. Returns-fact _ λ fits. Returns-bind _ _ (journal-On P env j _ _) λ _.
                Returns-bind _ _
                  (check_order-Fits j Fits before env Flow.close_position _ chosen.1 fits)
                  λ ready. record { at = λ w q. q })
            (λ code. terminalize-On P _ env Flow.close_position j code) (λ w q. q)))
        λ chosen. Returns-fact _ λ fits.
          Returns-bind _ _ (submit_order-One j Fits before env Flow.close_position _ chosen.1 fits)
            λ r.
              Returns-bind _ _ (update-On Q j OrderState.filled _ env.clock.recorded)
                λ _. Returns-bind _ _ (journal-On Q env j _ _) λ _. pure-On Q _

  place_demo_order-One :
      (request : DemoOrderRequest)
      → let One' = On (One request.client_order_id (IsOrderFor env request) before) in
        Runs
          (On (Quiet request.client_order_id (IsOrderFor env request) before))
          (place_demo_order h env request)
          One'
          One'
  unfolding place_demo_order
  place_demo_order-One request =
      let j = request.client_order_id in
      let Fits = IsOrderFor env request in
      let P = Quiet j Fits before in
      Returns-bind _ _ (unsent-One j Fits before _ (lift-On P _)) λ _.
        Returns-bind _ _ (unsent-One j Fits before _ (journal-On P env j _ _)) λ _.
          Returns-bind _ _
            (unsent-One j Fits before _
              (Returns-note _ _ (try_store-On P _ _) (journal-On P env j _ _)))
            λ row. resume_or-One j Fits before env _ _ _ (resume row) (place_new_order-One request)

  close_demo_position-One :
      (request : DemoCloseRequest)
      → let One' = On (One request.client_order_id (IsCloseOf env request) before) in
        Runs
          (On (Quiet request.client_order_id (IsCloseOf env request) before))
          (close_demo_position h env request)
          One'
          One'
  unfolding close_demo_position
  close_demo_position-One request =
      let j = request.client_order_id in
      let Fits = IsCloseOf env request in
      let P = Quiet j Fits before in
      Returns-bind _ _ (unsent-One j Fits before _ (lift-On P _)) λ _.
        Returns-bind _ _ (unsent-One j Fits before _ (journal-On P env j _ _)) λ _.
          Returns-bind _ _
            (unsent-One j Fits before _
              (Returns-note _ _ (try_store-On P _ _) (journal-On P env j _ _)))
            λ row. resume_or-One j Fits before env _ _ _ (resume row) (close_now-One request)

-- place_demo_order calls order_send at most once, and then for the request's id, with an opening
-- order of the request's symbol, volume and side, at the ask of the terminal's tick for a buy and at
-- its bid for a sell.
pub sent_order_is_requested :
    (h : Hashing) (env : Env) (request : DemoOrderRequest) (w : World)
    → SentOne request.client_order_id
        (IsOrderFor env request)
        w.sent
        (place_demo_order h env request w).1.sent
sent_order_is_requested h env request w =
    state_of_Ended (On (One request.client_order_id (IsOrderFor env request) w.sent))
      (place_demo_order h env request w) ((place_demo_order-One h env w.sent request).at w refl)

-- close_demo_position calls order_send at most once, and then for the request's id, with an order
-- that names the request's position, which the terminal lists, and has its symbol and its whole
-- volume: it sells at the bid of the symbol's tick where the position was bought, and buys at the ask
-- where it was sold.
pub sent_close_is_whole :
    (h : Hashing) (env : Env) (request : DemoCloseRequest) (w : World)
    → SentOne request.client_order_id
        (IsCloseOf env request)
        w.sent
        (close_demo_position h env request w).1.sent
sent_close_is_whole h env request w =
    state_of_Ended (On (One request.client_order_id (IsCloseOf env request) w.sent))
      (close_demo_position h env request w)
      ((close_demo_position-One h env w.sent request).at w refl)
