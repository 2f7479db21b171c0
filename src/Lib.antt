-- ===== src/Lib.antt =====
-- democrit: trading of game assets on Xaya without a central party. A node keeps its own offers,
-- takes offers of others, and exchanges messages with the counterparty of each trade until one signed
-- transaction of the chain moves the asset to the buyer and the payment to the seller.
--
-- The files, and the code that each is about (paths from the repository's root):
--   Proto        src/proto/*.proto: the data that the node keeps and exchanges.
--   MyOrders     src/myorders.cpp: the own orders. `Node` is the global state with the published
--                messages; `add`, `remove_by_id`, `try_lock`, `unlock` and `run_refresh` are the
--                methods. Refresh, Throwing, Invariant, Holding and Locking hold the
--                proofs.
--   Checker      src/checker.cpp: the checks of buyer and seller before they sign. Decoded has the parts
--                on decoded JSON alone; Total, Ancestor, Outputs, Signature and SellerSignature hold the
--                proofs.
--   Trade        src/trades.cpp, class Trade: Wallet has locks and the construction of the PSBT, Reply
--                has HasReply, Update has Update. Identifier and Life hold the proofs, Steps and Results
--                their calculi.
--   TradeManager src/trades.cpp, class TradeManager, with HandleSuccess and HandleFailure; the children
--                Sweep, Processing, Parties, Safety, Finishing, Calls, Lingering, Opening, Settlement and
--                Agreement hold the proofs.
--   Authenticator src/authenticator.cpp: user names and the accounts that they speak for. Encoding and Known
--                hold the proofs.
--   OrderBook    src/orderbook.cpp: the orders of other accounts, their updates and time-out, in terms of
--                the time of each call; Assets has the order books by asset. Expiry, Validity, Sorting, Listing,
--                Contents, Collecting, Getters, OneAsset and Views hold the proofs.
--   ProtoJson    src/json.cpp: orders, order books and trades as JSON, and an order back. Types has the types
--                of what is written; Members, RoundTrip, Printing and Typing hold the proofs.
--   Daemon       src/daemon.cpp: the handlers of messages and the calls of the user over the state of
--                all components; Events has any sequence of them. Keeping, Validity, Handlers, Broadcasts,
--                Books, Serving, Starting and OwnOrders hold the proofs.
--   Gsp          gsp/game.cpp, gsp/pending.cpp, gsp/rpcserver.cpp: the confirmed trades and the answer to
--                checktrade, which the trades of the node read. Rows, Confirming, Statuses and Answers hold
--                the proofs.
--   MucClient    src/mucclient.cpp: the nicks of the room and the connection to it. Nicknames, Senders and
--                Stepping hold the proofs.
--   Host         src/daemon.cpp: `Daemon::Impl` as a subclass of the client, so all that comes from outside. Parts,
--                Tracing and Origin hold the proofs.
--   Nonfungible  nonfungible/main.cpp: the asset spec of one game, in place of the parameter. Pairs and
--                Balances hold the proofs.
--   RpcServer    src/rpcserver.cpp: the methods for the user, and in Loop the wait for `stop`. Answers holds the
--                proofs.
--   RpcClient    src/private/rpcclient.tpp: the JSON-RPC clients of the threads.
--   Stanzas      src/stanzas.tpp, src/private/stanzas.hpp: the data of messages as extensions of XMPP stanzas.
--                Delivery goes from the refresh of one node to the order book of another.
--   IntervalJob  src/intervaljob.cpp: the threads of a periodic job. Stopping holds the proofs.
--   Json         the values of jsoncpp as far as they are used, with their equality.
--   Env          what the program calls and does not implement: the RPC interfaces of Xaya Core and of
--                the GSP, the asset spec of the game, clock, helpers and flags, all as one record that
--                the definitions take as an argument. No call is assumed to be harmless: each may
--                change the world and may throw. Only the validation of the own orders leaves
--                the world as it is; its answers, exceptions included, depend on the world.
--   Base         numbers, bytes, lists, dictionaries, effects; Tests: a concrete world and runs.
--
-- How it is modelled. A method is a function into `Exec S A`: from a state to an outcome and the next
-- state. The outcome is a value, an exception of JSON-RPC, or a failed CHECK; what was written before
-- an exception stays written. The manager calls Trade, which calls the checker and the wallet; a
-- success or failure goes back to MyOrders. The daemon authenticates each sender, validates the orders that
-- it broadcasts for the order book, and hands private messages to the manager. The GSP and the asset spec,
-- parameters of the node, are modelled as components of their own and put in their place where two
-- sides meet. int64 and uint64 keep their wrap-around at 2 ^ 64; the
-- id counter of the orders wraps too, and theorems about it say what room they need. Loops go over
-- lists by structural recursion, and the search for ancestors over its bound of blocks, so no fuel is
-- needed.
--
-- Not modelled: gloox, charon and the encoding of protocol buffers, the stubs of the JSON-RPC
-- clients and server, the mutex of the state (each access is one step), what calls the periodic jobs'
-- functions at which time, and what the programs in main.cpp build. The mock servers are test code. Log
-- messages are left out.
pub mod Base
pub mod Proto
pub mod MyOrders
pub mod Json
pub mod Env
pub mod Checker
pub mod Trade
pub mod TradeManager
pub mod Tests
pub mod Authenticator
pub mod OrderBook
pub mod ProtoJson
pub mod Daemon
pub mod Gsp
pub mod Host
pub mod Nonfungible
pub mod MucClient
pub mod IntervalJob
pub mod RpcClient
pub mod RpcServer
pub mod Stanzas
