-- ===== src/Lib.antt =====
-- A model of HotStuff as archipelago-hotstuff implements it, and the theorems about it.
--
-- The program is a BFT state machine replication library in C++ with applications on top of it. A
-- replica is a `HotStuffCore` (hotstuff/src/consensus.cpp, hotstuff/include/hotstuff/consensus.h):
-- it keeps blocks in a storage, delivers those whose parents are delivered, votes on the proposals
-- of other replicas, counts the votes for its own ones, and commits a block once a chain of three
-- certified blocks stands on it. A network layer and a pace maker call its methods and receive its
-- virtual calls.
--
-- - Base: Boolean tests on numbers, lists as sets and as maps, sorting, prefixes and suffixes.
-- - Crypto: `PartCert` and `QuorumCert` of hotstuff/include/hotstuff/crypto.h. The functions of the
--   libraries secp256k1 and salticidae are the fields of `Library`, also what the setting of a bit
--   beyond its vector leaves behind, which is undefined; hashes, keys and signatures are numbers,
--   and a bit vector is a list of Booleans.
-- - Entity: `Block`, `ReplicaInfo` and `ReplicaConfig` of hotstuff/include/hotstuff/entity.h.
-- - Core.State: the fields of `HotStuffCore`, the block storage, and the monad of the methods.
-- - Core.Deliver: `on_deliver_blk`, `get_delivered_blk`, `sanity_check_delivered`.
-- - Core.Update: `update_hqc` and `update`, a function for each stage with its early returns.
-- - Core.Handlers: `on_receive_vote`, `async_qc_finish` and `on_qc_finish` (Votes),
--   `on_receive_proposal` (Voting), `on_propose` (Proposing), `add_replica`, `on_init` and the
--   constructor (Init).
-- - Core.Post, Invariant, Frame, Stable, Advance: postconditions, the invariant and what keeps it.
-- - The other modules of Core.Deliver, Core.Update and Core.Handlers: the theorems, by what they
--   are about.
-- - Core.Reach: the states that a replica reaches by fetching, delivering, proposing and answering.
-- - Client: hotstuff/examples/archipelago_client.cpp, the requests in flight and the handlers of
--   the replies. Median, Sending, Replies: its theorems.
-- - Bench: hotstuff/examples/hotstuff_client.cpp, the client of the plain protocol. Filling,
--   Rounds: its theorems.
-- - Archipelago: hotstuff/examples/archipelago_app.cpp and the stable point of
--   hotstuff/src/hotstuff.cpp. A client asks 2f + 1 replicas for timestamps, sends one of them
--   back, and the leader (server 1) orders the commands by it: from time to time it sorts the
--   commands behind its stable point, cuts off those up to a period ago as a batch, and has the
--   hash of the batch decided. State, Order, Execute, Check, Sort: the definitions. Sorting, Batch,
--   Leader, History: the leader. Follower: the other replicas. Requests: the first round.
-- - Network: `HotStuffBase` of hotstuff/src/hotstuff.cpp, the queue of commands, decisions, votes,
--   connections and the start. Queue, Decide, Start: its theorems.
-- - Delivery: `HotStuffBase` once more, the fetching and the delivery of blocks: the fetch contexts
--   of hotstuff/include/hotstuff/hotstuff.h, `async_fetch_blk`, `async_deliver_blk` and the
--   handlers of proposals, votes and blocks. A promise is a number with its status; a callback is
--   data until it runs, in a step of its own, in any order with the others. State, Fetch, Deliver,
--   Handlers, Steps: the definitions. Promises, Onward, Waiting, Parents, Pool: what promises stand
--   for. Ready, Serves, Turns, Calls, Runs: the steps. Requests, Asking: whom a replica asks for a
--   block.
-- - Wire: `serialize` and `unserialize` of certificates (Cert), blocks (Entity) and messages
--   (Message, with Reading for the theorems, and Replies). The stream is a parameter, with what was
--   written read again as its law (`ReadsBack`).
-- - Pacemaker: hotstuff/include/hotstuff/liveness.h, who proposes, when, and on which block. Beats:
--   PMWaitQC. Rotation, Turns, Balance: PMRoundRobinProposer, whose timeouts are whole numbers, and
--   its beats. Tail: PMHighTail.
-- - Verify: `verify` of certificates, votes and blocks.
-- - Tests: concrete inputs, runs of the handlers on them, and the theorems on them. Forks: two
--   replicas on a tree of two branches.
--
-- A `block_t` is the number of a block in memory (`Ptr`), `blocks` and `next_ptr` are that memory,
-- and a null pointer is `none`. A set of pointers or of replicas is a list. A virtual call and the
-- resolution of a promise are entries of `outputs`, newest first; what a callback does is a later
-- call of a method, where the code runs the callbacks inside the call that resolves the promise.
-- A method returns `ok` or `throws` with the state that it leaves behind. Two
-- errors are the model's: `undefined_behaviour` for the access to a missing parent or certificate,
-- and `out_of_fuel` for a walk along the parents that takes more rounds than it is given. The walks
-- are given one round more than the height of the block where they start, which is enough since
-- each parent of a delivered block is one lower. Heights are computed modulo 2 ^ 32 and
-- `nmajority` modulo 2 ^ 64, as in the code.
--
-- A replica is sound (`Sound`) if its genesis, locked, executed and highest certified blocks are
-- delivered and in memory, each delivered block stands one above its first parent, each certificate
-- is for the block it refers to, its votes and proposals so far are for strictly rising heights up
-- to `vheight`, and its committed blocks form a chain of direct parents from the genesis block to
-- `b_exec`. `Quiet` says further what a step keeps: pointers rise only, and no vote is cast.
--
-- Not modelled: `prune`, which needs the reference counts of the blocks and whose call is commented
-- out in the applications; the two-step variant of `update` behind `HOTSTUFF_TWO_STEP`, off by
-- default; in the network layer the queues of ordering requests, which only stand in for the
-- encryption of timestamps; in the pace maker PMRoundRobinProposer the empty blocks that
-- `do_new_consensus` proposes behind its first one; hotstuff/examples/hotstuff_app.cpp; command
-- lines, clocks, statistics and logs. The `sort` of the batches is a parameter that puts a
-- permutation in order, since std::sort is not stable. `send_while` gives the loop of the client
-- one round more than there are places for requests, of which each round fills one.
pub mod Base
pub mod Crypto
pub mod Entity
pub mod Core
pub mod Client
pub mod Bench
pub mod Archipelago
pub mod Network
pub mod Delivery
pub mod Wire
pub mod Pacemaker
pub mod Verify
pub mod Tests
