-- ===== src/Lib.antt =====
-- A model of chesscoin, a proof of training chain: a block carries a deterministic training run
-- of a small model, a commitment to its every step, and work on its header. A node checks a
-- block by redoing sampled steps, keeps the blocks in a tree, and follows the best tip.
--
-- Prelude: lists, Booleans, equality tests, results, integers and machine words.
-- Domain: crates/chesscoin-core/src/domain.rs. Digest, ModelState, TrainingStep, BlockHeader,
--   TraceEntry and the others are records with the source's fields. A text is the list of its
--   bytes; an array of fixed size is a list, with IsDigest, IsModel, IsStep and IsHeader for what
--   the types of the source promise. Domain.Mix holds mix64 and the gradient.
-- Ports: crates/chesscoin-core/src/ports.rs. The hasher and the sampler are parameters.
-- Application: crates/chesscoin-core/src/application.rs. Simulator is ProtocolSimulator, Config is
--   ChainConfig, Validation is validate_block_after with its loops, Chain is ChainState and
--   ForkChoice is ForkChoiceState. A method on `&mut self` returns the new state with its result.
--   The chain and the fork choice call the simulator to build a trace and the validation to check
--   one; the validation calls the simulator's verify_sample with the indices of the sampler.
-- Adapters: crates/chesscoin-node/src/adapters.rs. The toy hash on its four lanes is a hasher for
--   the protocol; the sampler's loop draws indices from it.
-- Wire: crates/chesscoin-node/src/wire.rs. Number and Text hold what the format uses of the standard
--   library's text; Message has the messages, Encode and Decode the lines of headers, entries and
--   blocks, Receive the messages and the envelope. An error is its text. The type of socket
--   addresses, with its printer and its parser, is a parameter.
-- Node: crates/chesscoin-node/src/runtime.rs. State is NodeState, with the file at storage_path as
--   its text and the counters as natural numbers that do not wrap; Config is NodeConfig and its
--   validation, Address what the code looks up in a socket address. Peers is the peer book, Locator
--   the locators of a chain and the blocks that a peer answers them with, Headers the check of a
--   peer's headers. Chains holds what changes the chain: an incoming block, a mined one, a batch,
--   each with the activation of the best chain and the append to the file; Storage and Load are
--   the records of the file, append_block and load_chains. Stream reads lines from a connection and
--   writes messages to one, Serve has the replies, Dispatch handle_stream, Exchange what a node
--   asks its peers for, Start the state that start_node makes, Loop the turns of node_loop with its
--   commands, and Steps the relation of a state to what can follow it. The state behind the lock is
--   passed on; a step between two locks that the source takes one after the other is taken at once.
--   What is outside comes in as an argument: the bytes that a connection gives, how many messages
--   it takes, which peers can be reached, how much of an append is written, the time of a turn. The
--   deterministic sampler is a parameter, since its loop runs on fuel.
--
-- Conventions. A u64, a u128 or a usize (64 bits) is a native number, and each operation that can
-- leave its range writes the wrap of the release build out, as for a height (% 2 ^ 64) and a work
-- score (% 2 ^ 128). An i64 is an integer, saturating where the source saturates. A HashMap is an
-- association list, the newest first, in which an insertion replaces; the source never iterates
-- over the map. An index out of range is `none` in `run`, where the source panics. The loops
-- without a bound run on fuel: the walk back from the best tip ends with one round more than there
-- are nodes, mining as soon as a nonce has the work, and the sampler as soon as it has drawn enough
-- distinct indices. Twenty digits are enough for the text of a number below 2 ^ 64.
--
-- Not modelled: of runtime.rs, the threads, the handle of a running node and the wait between two
-- turns of the loop, whose clock is read once for a turn; of the lock file, all but that the start
-- may fail to get it; the texts of most errors, which are data types here; sockets and the command
-- line, which are input and output; Display texts of errors and models; the tests.
pub mod Prelude
pub mod Domain
pub mod Ports
pub mod Application
pub mod Adapters
pub mod Wire
pub mod Node
