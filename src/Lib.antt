-- ===== src/Lib.antt =====
-- A model of tradingia's execution path and of its FX backtest. The execution path is the Linux
-- side that decides what may be asked for (src/execution), and the bridge process beside the
-- MetaTrader 5 terminal that carries it out (mt5_bridge). The Linux side judges a request by its
-- policy and the age of the quote, and posts it to the bridge; the bridge checks everything again,
-- keeps an idempotency table, a journal, the kill switch and the last reconciliation in SQLite, and
-- calls the terminal.
--
-- Which file models which part, with the names of the code:
--   Execution/Domain: the enumerations and records of src/execution/base.py.
--   Execution/Policy: RealMoneyPolicy, authorize_open and authorize_close of
--     src/execution/policy.py; each reason is a constructor with the values that its message shows.
--     Policy/Config is from_dict, Policy/Open and Policy/Close are about the decisions.
--   Execution/Remote: the HTTP client, src/execution/mt5_remote.py. Remote/Json has the values that
--     json.loads gives, Remote/Records the records that are read, Remote/Values, Remote/Answers and
--     Remote/Listings the parsers, Remote/Http `_get_json` and `_post_json`, Remote/Calls the requests
--     of a call, Remote/Client and Remote/Queries the methods; Remote/Reads, Parsed and History reason
--     about them. The answers of the wire and the operations of Python's library on texts are fields
--     of `Wire` and `Python`; the decimals NaN and Infinity are outside the model. A call is also
--     given the version that `health` expects and the client's reading of the clock.
--   Execution/Safe: SafeExecutionService of src/execution/safe_execution.py; Safe/Guarded follows its
--     calls, and Safe/Opening reads them in the terms of the wire's answers.
--   Execution/QuoteFreshness and Bridge/QuoteFreshness: the two copies of validate_quote_freshness,
--     in src/execution/quote_freshness.py and mt5_bridge/quote_freshness.py.
--   Bridge/Backend: the plain data of mt5_bridge/backend.py. A record `Backend` holds the answers
--     that the terminal gives during one request; an answer `none` is a raised MT5BackendError.
--   Bridge/Identity: the fingerprint of a request and the comment tag (mt5_bridge/store.py and
--     mt5_bridge/identity.py). SHA-256 is a parameter.
--   Bridge/Store: every method of BridgeStore (mt5_bridge/store.py) as a function on the tables;
--     Store/Rows has the rows and their statements, Store/Journal the entries.
--   Bridge/Reconciliation: mt5_bridge/reconciliation.py. Reconciliation/Report is about its reports,
--     Reconciliation/Evidence and Resolution about the rows that it closes.
--   Bridge/Trading: place_demo_order and close_demo_position of mt5_bridge/trading.py. Trading/Monad
--     has the state (the store and the log of order_send calls) and the failures, Trading/Guards the
--     checks, Trading/Stages the stages that both share. What is written before a raise stays.
--     Trading/Runs has the rules by which a property goes through a composed action, Trading/Room,
--     Trading/SendLog, Trading/Final and Trading/Unflagged apply them to one view of the state each.
--     Trading/Chosen says what an order asks for, Crash and Crashed follow an order_send that raises.
--     `max_positions` and the thresholds are fields of `Env`; the endpoint passes 1 and the
--     configured values.
--   Bridge/App: the endpoints of mt5_bridge/app.py that change state, the status of each outcome, and
--     a session as a list of calls.
--   Bridge/Schemas: bodies of answers, mt5_bridge/schemas.py; Schemas/RoundTrip reads them with the
--     client's parsers. How Python prints decimals and times is a parameter.
--   Bridge/ServerClock: ServerClockOffset of mt5_bridge/server_clock.py.
--   FxBacktest: the engine that runs a strategy's signals over FX bars (src/fx/backtesting).
--     FxBacktest/Models, Costs, Rollover, Execution and Pnl are models.py, costs.py (with
--     RolloverSchedule apart), execution.py and pnl.py; FxBacktest/Config, Legs, State and Engine are
--     engine.py: `step` is a round of the loop in `run`, `run_loop` the loop, `close_at_end` and
--     `result_of` what follows it. FxBacktest/Moves and Rounds give what a round does as steps of a
--     relation; Loop, Ended, Causal, Books, Solvency, Prices, Accounting, Returns and Total reason
--     about runs, and the children of Rollover about the crossings.
--   Prelude: shared types, tests, lists, signed integers over the native numbers, and results.
--
-- Instants and durations are integers of microseconds, and decimals are integers of a fixed
-- quantum; texts the bridge only compares are numbers. Each read of the clock is a field of its own, so
-- nothing depends on the order of readings. In the backtest each quantity counts a quantum of its own
-- and points count thousandths, so that a product counts the product of the quanta: arithmetic is
-- exact, the rounding of decimal.Context to 28 digits is not modelled, and the halved commission of a
-- round turn is exact where the product is even. Every function is structural, except that
-- crossings_from takes as fuel the days from the start to the end and two more, which covers each day
-- that the `while` visits and the test that ends it.
--
-- Each request runs alone, as one step. In the program two requests may interleave between the
-- transactions of the store; that is not modelled. Also not modelled: authentication, the parsing of
-- HTTP bodies by the bridge, the texts of errors, the read endpoints, the rest of the bodies in
-- mt5_bridge/schemas.py, the MetaTrader5 package, and the data, crypto backtesting, strategy,
-- research and command-line parts. Of the FX backtest, metrics_adapter.py converts results to floats.
pub mod Prelude
pub mod Execution
pub mod Bridge
pub mod FxBacktest
