-- ===== src/Lib.antt =====
-- A model of revaultd, the daemon of a Revault wallet's managers and stakeholders, and the theorems
-- about it. Paths are those of the repository.
--
-- The daemon keeps its vaults in an SQLite database. A poller follows bitcoind: it compares the
-- coins that the watchonly wallet lists with the ones it knows, and moves each vault along its
-- statuses, from the deposit to the transaction that takes it out. RPC commands store the
-- signatures of the presigned transactions and the Spends that managers prepare.
--
--   Prelude: tables as lists of rows (select, update, delete), results with errors.
--   Status (src/daemon/revaultd.rs): `VaultStatus`, its numbers and its texts.
--   Sigs: the signature map of a PSBT input.
--   Fault (src/daemon/database/mod.rs, src/daemon/bitcoind/mod.rs): how a call fails. Where the source
--     goes on after an error, a panic still ends the call.
--   Database (src/daemon/database): Schema has the rows, Interface the queries of interface.rs;
--     Marks, Deposits, Presigned and Spends have the statements of actions.rs, one function each on
--     the record `Db` of the tables. A statement that a constraint may refuse returns a result.
--     Integrity says what refers to what in the tables, and has the statements as a step relation.
--   Cache and Bitcoind (src/daemon/bitcoind/interface.rs): the caches of coins, the comparison of a
--     cache with the answer of `listunspent` (Sync), and the other calls (Client) over `Rpc`, which
--     answers a request by the number of requests before it: bitcoind may change at any time.
--   Poller (src/daemon/bitcoind/poller.rs, src/daemon/bitcoind/utils.rs): what is done at a new tip
--     (Tip), when an Unvault output was spent (Unvaults), when a deposit appears, confirms or is
--     spent (Deposits), in each poll of the coins (Update), and after a reorganisation (Reorg).
--     Setup has the caches at the start and the parameters that do not change. The rescan runs on
--     fuel, since bitcoind's tip may change without end and each change starts it again; any fuel
--     but 0 is enough while the tip stays. Without fuel it fails with `still_running`, which is no
--     fault of the program. The transactions of a vault are looked up in the database as it was before
--     the rescan's own transaction, since the source opens another connection for that. A handler is a function on `World`, the database, the caches and the
--     number of requests, and keeps what it wrote when it fails.
--
--   Control (src/daemon/control.rs): Signatures has the checks, over `Secp`, what they take from
--     secp256k1; Coordinator the exchanges with the servers and with the bitcoind thread; Vaults
--     and Onchain the lists for the RPC; Keys (src/daemon/revaultd.rs) the keys of the
--     participants. A call works on `Session`: the database, and the log of the messages that were
--     sent, with the last one first. `Net` answers a message by the log so far, so a server may
--     answer anything.
--   Api (src/daemon/jsonrpc/api.rs): Presigned has `revocationtxs` and `unvaulttx`, Spend the
--     commands about Spends, Broadcast `revault` and `emergency`, Lists and Info the queries. A
--     command is its checks, which only read, and then its effects, in the order of the source;
--     what was written or sent before a failure stays.
--   Sigfetcher (src/daemon/sigfetcher.rs): one poll of the coordinator for signatures, and the
--     rounds of the thread. Bitcoind.Thread (src/daemon/bitcoind/mod.rs) answers the messages of
--     the other threads.
--   Server (src/daemon/jsonrpc/server.rs): Stream has what is read from and written to a
--     connection, over what the socket answers to each call; Requests finds the calls in the bytes,
--     over the parser serde_json, and starts the threads that handle them. A log keeps the order of
--     the actions. Loop has `mio_loop`: one function for an event, on the tables of the connections
--     by token, and the steps of the server, where a thread may push its response between any two
--     events. The loops run on fuel: one for each call of `accept` and of `read`, one for each
--     request and one for each write.
--   Config (src/common/config.rs, and RevaultD::from_config): the checks on the file, over the
--     parser.
--   Database.Startup (src/daemon/database/actions.rs): the database is created, checked and read.
--   Bitcoind.Retry (src/daemon/bitcoind/interface.rs): a request that fails is sent again, over the
--     time that each try takes; 92 tries are enough, since the code waits half a second or more
--     after each and gives up 45 seconds after the first. Wallets: the calls on the node, its
--     wallets and the descriptors, and src/daemon/bitcoind/mod.rs: the checks at the start, with
--     fuel for each try while bitcoind warms up, which may last without end.
--   Poller.Watchonly and Poller.Main (src/daemon/bitcoind/poller.rs): the watchonly wallet, and the
--     main loop with the wait until bitcoind is synced, with fuel for each round; what a round
--     finds (shutdown, clock, wallet file) is a parameter. `f64` is the record `Float` of what is
--     done with it.
--
-- Numbers of Rust are natural numbers; where a conversion can fail (the amount to an i64, the
-- timestamp to a u32) the model says how. Transactions, descriptors and scripts belong to the
-- libraries bitcoin and revault_tx: the model keeps what the daemon reads of them (txids, numbers
-- of inputs, partial signatures), and takes what they decide, as `is_finalizable` or the record
-- `Wallet`, as a parameter. A database statement is run as a whole, as the transaction that carries
-- it is.
--
-- The RPC commands are those of a release build: `u64` products wrap unless they are checked.
--
-- Not modelled: of the RPC, `stop` (but for the flag that it sets), `help` and the shapes of the
-- JSON; of the server, the binding of the socket and the Windows loop; the deserialisation of the
-- configuration; the parsers of database rows. A thread that handles a request is taken to return:
-- `join().unwrap()`, which panics if it panicked, always succeeds. The locks that threads share are not: a command and
-- a poll run one after the other. Logging, files, the command line client and the contributed tools
-- are I/O or calls of libraries.
pub mod Prelude
pub mod Status
pub mod Sigs
pub mod Fault
pub mod Database
pub mod Cache
pub mod Bitcoind
pub mod Poller
pub mod Control
pub mod Api
pub mod Sigfetcher
pub mod Server
pub mod Config
