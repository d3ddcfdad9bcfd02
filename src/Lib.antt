-- ===== src/Lib.antt =====
-- A model of the payment driver: a library that pays ERC-20 tokens and gas currency in batches,
-- keeps what it owes and has paid in SQLite, and reaches the chain through a pool of RPC endpoints.
--
-- How the parts interact. Token transfers are inserted into the table token_transfer. The sender
-- gathers those without a transaction, groups them and inserts for each group a row of the table
-- tx (Sender, Transaction). It then processes the rows of tx in their order, and stores what came
-- of each: the transfers of a confirmed transaction are marked paid and share its fee. Every call
-- of the chain goes through the endpoint pool, which ranks endpoints and records failures. Events
-- go to the status tracker, which keeps a list of present problems.
--
-- Files, with the code that each models:
--   * Prelude, Prelude/...: names, tests, lists, results and integers that the others share.
--   * Text, U256, Error, Events: the number texts and arithmetic of ethereum_types, PaymentError
--     and the driver events (crates/erc20_payment_lib_common/src/error, events.rs).
--   * Db, Db/...: crates/erc20_payment_lib_common/src/db, model and ops. A table is a list of rows
--     in the order of their ids; a statement is a function on it; NULL is `none`.
--   * Multi, Multi/...: crates/erc20_payment_lib/src/multi.rs.
--   * Contracts, Transaction: crates/erc20_payment_lib/src/contracts.rs and transaction.rs.
--   * Sender, Sender/...: crates/erc20_payment_lib/src/sender.
--   * Sender/Setup: the settings of crates/erc20_payment_lib/src/setup.rs that the sender reads.
--     Sender/Batching, Sender/Batching/...: batching.rs. Sender/Fees, Sender/Settle,
--     Sender/Settle/...: the storing of results in service.rs.
--   * RpcPool/Endpoint, Marks, Choose, Verify, Resolve, Call: pool.rs, verify/, pool/resolver.rs and
--     eth_generic_call.rs of crates/erc20_rpc_pool/src/rpc_pool. RpcPool/Members, Invariant and
--     Lifetime hold what is true of a pool at all times.
--   * Runtime, Runtime/...: StatusTracker of crates/erc20_payment_lib/src/runtime.rs.
--   * Sender/Process, Sender/Process/...: process_transaction of
--     crates/erc20_payment_lib/src/sender/process.rs. Transaction/Request, Check, Send and Receipt:
--     what transaction.rs asks the node and the signer, which Node holds as parameters.
--   * Convert, Convert/...: crates/erc20_payment_lib_common/src/utils.rs. Runtime/Unpaid and
--     Runtime/Remove: functions of runtime.rs. World: the database, SharedState and the channel
--     of events, with the monad of the code that changes them.
--   * Sender/Allowance: sender/allowance.rs. Sender/Service and Sender/Loop: process_transactions,
--     the times of the loops and a turn of service_loop, of sender/service.rs. Transaction/Extended,
--     Runtime/Verify and Payments: find_receipt_extended and verify_transaction. Runtime/Transfers,
--     Deposits, Closing and Refusals: the calls of runtime.rs that add payments and close deposits.
--   * Tests, Tests/...: concrete data, and the theorems applied to it.
--
-- Conventions. Async code is modelled as sequential code between its awaits; the clock is a
-- parameter `now`; what the code outside the repository does (the texts of numbers and addresses,
-- the ABI encoder, the chain) is a parameter, with its documented behaviour as hypotheses. A panic
-- is a result of its own. Logging, metrics and JSON are not modelled. Error messages keep their
-- fixed text and lose the values put into them. A sqlx error that the data do not explain (a lost
-- connection) is not modelled.
--
-- Bounds. U256 sums panic from 2^256 on (U256). eth_generic_call runs on fuel, one unit for each turn
-- of its outer loop; every turn returns or uses up a retry, so 5 are enough. Counters of requests are
-- not bounded. Penalties are integers; the u64 of a negative delay wraps around, as the casts do.
-- process_transaction has a number of rounds, and one of receipts asked for in a round; `none` is
-- a run that has not returned by then. A row replaces a row with a smaller id, so that the loops
-- along a chain of replacements have as many turns as the id. A deletion
-- from tx is refused while a transfer or an allowance names the row. Columns of type i64 hold numbers
-- from zero on; products of decimals are exact, while rust_decimal rounds those from 2^96 on.
--
-- A turn of service_loop is a function of the state at its start; the account that the loop is for
-- is taken to be there. The clocks of the parts of a turn are parameters.
--
-- Not modelled. The web server, the command line, the signers, the test crates and the proxies;
-- of runtime.rs its start and the calls that make deposits, mint tokens and ask the faucet.
pub mod Node
pub mod World
pub mod Convert
pub mod Prelude
pub mod Text
pub mod Error
pub mod U256
pub mod Db
pub mod Events
pub mod Multi
pub mod Contracts
pub mod Transaction
pub mod RpcPool
pub mod Sender
pub mod Runtime
pub mod Tests
