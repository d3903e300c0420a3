-- ===== src/Lib.antt =====
-- Scale-out distributed ledger: the tracker server, and parts of the ledger.
--
-- The nodes of the ledger register themselves and their transactions at the tracker server, an
-- HTTP server under tracker-server/, which keeps both lists in memory, answers questions about
-- them and sends the graph of nodes and transactions to the browsers that listen. The ledger is
-- the Java program under src/main/java/nl/tudelft/blockchain/scaleoutdistributedledger/, in which
-- every node has a chain of blocks. A node that sends money chooses unspent transactions as
-- sources (LocalStore), and sends the blocks that show it and that the receiver does not know
-- (ProofConstructor, MetaKnowledge) as a proof; the receiver joins them with the blocks it has
-- (ChainView), checks the proof (Proof) and the transaction with its sources on these views
-- (Verification), and appends the blocks to its chains (Chain). The transactions stand in blocks of
-- the sender's own chain, some of which it commits to the main chain (Commit).
--
-- The parts and their files:
--   Nodes         tracker-server/model/Node.js and NodeList.js: `NodeList`, an array with holes,
--                 as a list of slots. Nodes/Slots: what `getNode` reads after a call. Nodes/Counts:
--                 `getSize` and `getRunning`. Nodes/Update: `updateNode`. Nodes/Graph:
--                 `getGraphNodes`.
--   Transactions  tracker-server/model/Transaction.js and TransactionList.js: `TransactionList`,
--                 three sums and an object from keys to arrays. Transactions/Dictionary: the
--                 object. Transactions/Pairs: the keys. Transactions/Log: the list against the log
--                 of what was added. Transactions/Edges: `getGraphEdges`. Transactions/Averages:
--                 `getNumbers` and `addNumbersToArray`.
--   Js            JSON values, fields that may be missing, NaN, TypeErrors. Js/Decimal: `toString`
--                 of a number. Js/Keys: the text of `[a, b]` as a key, and `split(",")`.
--   Sse           tracker-server/helpers/sse.js: `Topic`, the connections that listen, and the
--                 chunks that are written to them. Sse/Laws: broadcast and removal.
--   Routes        tracker-server/routes/index.js and the error handler of tracker-server/app.js:
--                 the state `App`, a handler for each route, and `serve`, a request as express
--                 serves it. Routes/State: the state, the requests and the responses.
--                 Routes/Requests: the bodies and `isPresent` on their fields. Routes/Batch: the
--                 loop of `/register-transactions`.
--                 Routes/Refusals and Routes/Replies: the answers.
--   Server        the same server in time: a run is a list of events, each a request, a client that
--                 goes away, or a tick of a timer. Server/Refinement: the transactions against the
--                 log of requests. Server/Registry: the nodes against a registry without an array.
--                 Server/Numbered, Server/Clients, Server/Disconnect, Server/Timers, Server/Poison:
--                 ids, listening clients, timers, and incomplete batches over a run.
--   Port          `normalizePort` of tracker-server/app.js, with the part of `parseInt` it uses.
--   Demo          tracker-server/public/javascripts/demo.js: what the page shows of a message.
--   Ledger        the Java program. Ledger/Word: int and long. Ledger/Bytes: utils/Utils.java.
--                 Ledger/Transaction and Ledger/Block: model/Transaction.java, model/Block.java, and
--                 their `equals`.
--                 Ledger/ChainView: model/ChainView.java, without its iterator; the chain's blocks
--                 are an argument, a block is known by its number and its `equals`. Under it,
--                 Laws and Overlap: the blocks of a view and the shared ones. Validity: what the
--                 check accepts and what `getBlock` and `size` return then. Honest and Again: the
--                 blocks of an honest node, gaps on an empty chain, and a repeated check.
--                 Ledger/Chain: model/Chain.java. Updates: the blocks that `update` adds.
--                 Committed: the next committed blocks that it sets.
--                 Ledger/Commit: `addTransaction` and `commit` of model/Block.java, over calls on
--                 the chain of the node itself. Walk: the loop of `commit`. Steps: each call.
--                 Settled, Recorded, Kept: next committed blocks, abstracts, committed blocks.
--                 Ledger/MetaKnowledge: model/MetaKnowledge.java. Sending: what is sent, and the
--                 view that the receiver makes of it.
--                 Ledger/Verification: validation/Verification.java, on the views of the chains.
--                 Money: `checkMoney`. Spending: `checkDoubleSpending`. Closed and Accepted:
--                 `validateTransaction` and its caches.
--                 Ledger/LocalStore: LocalStore.java, its unspent transactions and money. Balance:
--                 the money. Spending: what a store counts, under `checkMoney` of the receiver.
--                 Verification/Messages: `validateNewMessage`, Received: what it accepts.
--                 Ledger/Proof: model/Proof.java. Anchor: what `verify` asks of the sender's chain.
--                 Proven: what it accepts. Ledger/ProofConstructor: ProofConstructor.java. Growth:
--                 the blocks to send of each node. Closed: their sources. Ends: the recursion.
--                 Ledger/Receipt: `applyUpdates` of model/Proof.java. Applied: the chains after it.
--                 Proof/Required: `appendChains2`, the chains that a transaction requires.
--                 Ledger/TransactionTuple: TransactionTuple.java. Amount: the amount of a tuple.
--                 Picked: tuples of unspent transactions, each once.
--                 Ledger/TransactionCreator: `createTransaction` of TransactionCreator.java. Created:
--                 the transaction under `checkMoney`, and the money of the store after it.
--                 TransactionCreator/Search: `bestSources`. Rounds, Groups: what is kept and found.
--                 Chosen: what is chosen. Payment: the transaction that is created of it.
--   Common        names and lemmas that the others share.
--   Tests         sample data, runs of the definitions, and the theorems at concrete inputs.
--
-- A method of the source is a function with its name in snake_case, from the old state to the new
-- one; one that can throw returns `Result`. A handler takes the state and the body of the request
-- and answers with the state and the response, `none` where the request is left without an answer,
-- or throws in the state that it has reached. The time, the outcome of the csv library and the order
-- in which a hash map is gone through are arguments.
--
-- Bounds and fuel. Numbers in bodies are integers; ids and counts are non-negative or missing.
-- An array index is below 2 ^ 32 - 1, and a registration past it leaves the elements as they are.
-- Averages are exact pairs of numerator and denominator: no sum is rounded to a double. Text is a
-- list of code points. One fuel is that of the decimal print of `n`, which is `n + 1`: each
-- round divides by ten, and reading the print back gives `n`. The other fuel is that of
-- `process_blocks`: a round adds a block or is the last, so more than the number of all blocks is
-- enough. All other loops are structural.
-- Numbers of blocks are not negative and do not overflow. Amounts of money are longs, as numbers
-- below 2 ^ 64, with sums that wrap and comparisons that are signed. The sources of a transaction
-- are transactions themselves, without a cycle, so the recursion of `validateTransaction` is on
-- them.
--
-- Not modelled: the middlewares of express, the log, the text of JSON, the headers of responses,
-- the csv library beyond whether it finishes, the exit on an uncaught exception, and the drawing
-- of the network by the vis library. Of the Java program: the signing of block abstracts, the genesis
-- transaction, the decoding of proofs, messages and sockets, the main chain
-- on Tendermint, the simulation, hashes and signatures.
pub mod Common
pub mod Demo
pub mod Js
pub mod Ledger
pub mod Nodes
pub mod Port
pub mod Routes
pub mod Server
pub mod Sse
pub mod Tests
pub mod Transactions
