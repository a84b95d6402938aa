-- ===== src/Lib.antt =====
-- The order path of the Dhan CAS bot, an automatic trader of NIFTY options: from the values that
-- the exchange and the broker send, through the capital rule and the sizing of an entry, to the
-- durable ledger, the submission of orders and the pricing of exits.
--
-- Parts, files of the program, and modules:
--   Prelude   shared names: tests on numbers, lists, integers over the native numbers, results,
--             rounded division
--   Domain    dhan_cas_bot/domain.py: the values (Types) and the checks of their constructors
--             (Checks)
--   Risk      dhan_cas_bot/risk.py: fees and cash (Fees), capital rule, allocation and quantities
--             (Capital); proofs in Amounts, Envelope, Budget
--   Exits     dhan_cas_bot/exits.py (Sale) and profit_exit.py (Ratchet); proofs in Band, Depth,
--             Protection
--   Ledger    dhan_cas_bot/ledger.py: the tables of SCHEMA (Tables), intents and attempts (Intents),
--             orders, fills and charges (Orders), the keyed tables (Keyed), lifecycle_totals
--             (Totals), and histories of calls (History); proofs in Recorded, Capacity, Evidence,
--             Repeat, Exposure
--   Orders    dhan_cas_bot/orders.py and exit_manager.py: the account and its actions (Action),
--             order_request (Request), _rate_attempt (Rate), submit (Submit), reduce (Reduce),
--             confirm_historical_order (Trades), reconcile (Resolve, Reconcile); proofs in
--             States, Windows, Sending, Outcome, Kept, Settled
--   Governor  dhan_cas_bot/governor.py: RateGovernor.admit (Windows); proofs in Admission
--   Strategy  dhan_cas_bot/strategy.py: the reference at the close (Boundary), intrinsic value,
--             permitted limits and the search for the affordable lots (Sizing), candidates and
--             their choice (Candidates), find_opportunity (Search) and find_final_opportunity
--             (Residual); proofs in Usable, Median, Largest, Worth, Chosen, Moves, Sound,
--             Final
--   Settlement  dhan_cas_bot/settlement.py and settlement_adapter.py (Final), settlement_cash.py
--             (Cash); proofs in Matched
--   Runtime   dhan_cas_bot/runtime.py: what permits an entry (Status); proofs in Permission
--   Engine    dhan_cas_bot/engine.py: the session (State), the callbacks of the feeds (Signals) and
--             of a final value (Finality), _allocation (Capital), _enter (Entry, Choice, Purchase)
--             and the decisions of cycle (Leave); the callbacks as a step relation in Reached, proofs
--             in Suffix, Tracked, Runs, Order, Settled, Mandated, Taken, Allowed,
--             Entering, Ladder, Held, Staying, Sticky, Quiet, Leaving
--   Candles   dhan_cas_bot/stream_minutes.py: completed one-minute candles (Minutes); proofs in Clean
--   Arbiter   dhan_cas_bot/strategy_arbiter.py: select_executable (Selection); proofs in Best
--   Feeds     dhan_cas_bot/dhan_feed.py: packets (Frames), decode_full_binary and book_from_packet
--             (Quotes, Decode); feeds.py: the epochs of a connection (Epochs), batches (Sets);
--             market_subscriptions.py: market_ids, with volatility_shock.py: shock_universe
--             (Universe), and MarketSubscriptions (Subscriptions); proofs in Split, Covers, Depth, Held,
--             Synced
--   Reads     dhan_cas_bot/read_scheduler.py: the queue of the reads (Queue); proofs in Rank, Kept,
--             Granted
--   Route     dhan_cas_bot/route.py: probe_candidates (Probe), rejected and granted attempts (Grants),
--             RouteQualifier (Qualify), managed_exit_route (Exits); proofs in Keys, Counters, Checks,
--             Budget
--   Intraday  dhan_cas_bot/session_strategies.py: the calendar and next_check (Calendars), bars
--             (Bars), evaluate (Rules); proofs in Windows
--   Samples   values on which the tests of the parts run
-- A strategy sizes an entry with Risk.permits and Risk.worst_case_entry_cash; Orders.submit checks
-- the same cash again, writes the intent and the attempt to the ledger, and calls the broker; the
-- ledger's records of orders and fills decide what is pending, held and spent, which the rate
-- reserve and the next allocation read. Orders.reconcile brings the ledger up to date with the
-- broker's orders and trades. Exits go through Orders.reduce with a price of Exits. The Engine feeds
-- the observations and books that it keeps to the searches of Strategy, and submits what they
-- find through Orders where the Runtime permits it.
--
-- Representation. Money is a whole number of 1/10000 rupee (the source's exact decimals; the finest
-- tick is five paise), rates are in billionths, which the default rates are multiples of, and
-- amounts that can be negative are integers. Roundings to a paisa or a rupee are rounded
-- divisions. A Python exception is the error of a Result, with the state beside it where the
-- state was committed before; a transaction that raises leaves the tables as they were. A table
-- is the list of its rows in the order of insertion. Times are microseconds. Identities drawn
-- from uuid4, the clock and the answers of the broker are arguments, and so are the JSON texts that the
-- session stores, the names of the strategies and the freshness of the account data. A raw identity of
-- an observation is taken never to be spelled like one that the code makes up.
--
-- Fuel. The search for the lots runs on fuel equal to the number of available lots: each round
-- shrinks the interval, so that the search ends before the fuel does. The packets of a message are split on fuel equal to its
-- length, and the values of a subscription are put into batches on fuel equal to their number: a
-- round takes at least one of them. Everything else is structural.
--
-- Not modelled: the network and the generated protocol code; the service, its activation
-- files, the dashboard and the research scripts; telemetry; the scores of the arbiter, the intraday
-- strategies other than the two rules of session_strategies.py, and the command that runs the probe; of the session engine the restoring of a saved session
-- and the part of its cycle that reconciles positions. The asyncio locks are represented by a
-- submission, or the locked part of a reconciliation, running as one action.
pub mod Prelude
pub mod Domain
pub mod Candles
pub mod Arbiter
pub mod Engine
pub mod Samples
pub mod Reads
pub mod Risk
pub mod Route
pub mod Runtime
pub mod Exits
pub mod Feeds
pub mod Governor
pub mod Intraday
pub mod Ledger
pub mod Orders
pub mod Settlement
pub mod Strategy
