-- ===== src/Lib.antt =====
-- A verification library for the execution node of this repository: RLP, the types' items, signing
-- hashes, the Merkle trie, block execution, the block processor, the messages, connections and peers
-- of the network, and the block builder.
--
-- The parts and how they interact. The block processor (processor/src/block_processor.rs) takes the
-- messages of a channel, keeps the head of the chain and a queue of blocks that are ahead of it, and
-- runs each next block through the pipeline (core/execution/src/pipeline.rs). The pipeline validates
-- the header and the body (validator.rs), opens the journal of the in-memory provider (in_memory.rs),
-- runs the executor of value transfers (executor.rs), and commits the journal or rolls it back. The
-- senders of the transactions come from core/rlp-codec/src/signing.rs, which hashes the items that
-- traits.rs makes of the types (core/types) and encoder.rs writes; the state root comes from trie.rs. Blocks
-- and requests come from peers: codec.rs (core/networking/src) cuts the bytes of a connection into
-- messages, connection.rs lets them through after a handshake, manager.rs knows the peers and passes
-- blocks and requests on, and a task of node/src/main.rs hands them to the processor and the answers
-- back. The block builder (block-builder/src) makes blocks that such a node accepts.
--
-- The files.
--   Prelude     lists and tests over native numbers, results with a panic, hash maps as association
--               lists, machine words, slices that panic out of range (Slices), actions on a state
--               that can fail, and their postconditions.
--   Types       core/types/src: accounts, headers, blocks, transactions, their prices, and which
--               records are values of the Rust types (Types/Valid). Types/Summary is about the
--               summary of transactions, Types/Hex about arrays as hexadecimal
--               text, Types/Opcode and Types/Genesis about the files of those names.
--   Rlp         core/rlp-codec/src/encoder.rs and decoder.rs. Rlp/Layout has the layout as a function
--               of the item alone; the proofs are in Layout, Lengths, RoundTrip and Total.
--   Codec       core/rlp-codec/src/traits.rs: `to_rlp_item` and `from_rlp_item` of each type are
--               `X_to_item` and `X_from_item`.
--               NoPanic is about indices that are always in range.
--   Trie        core/rlp-codec/src/trie.rs: insertion (Node), node encoding and root hash (Hash).
--               Lookup has the map that a trie holds, which the source has no function for; Diverge,
--               Fork, Insert, Update and Map are about paths that part, and Keys about whole keys.
--   Signing     core/rlp-codec/src/signing.rs. The hash and the curve, which other crates implement,
--               are the records `Crypto` and `SigningKeys`, arguments of everything that uses them.
--               Only the theorem on `sign` (Sign) and that on the signed transactions of a
--               generated block assume anything of them, in `IsSound`.
--   Execution   core/execution/src: the provider and its reads and writes (Provider), the validators
--               (Validator), the executor (Executor), the pipeline (Pipeline). Journal and Atomic are
--               about roll-backs, Balances about value, Accept about accepted blocks, Insert about
--               stored blocks, Create about transactions without a recipient, Charge about the payment
--               of a sender.
--               Cached is core/execution/src/cached.rs over the reads of providers.rs: Memory is about
--               one cache, Refines about all reads, Coherent about what the in-memory provider
--               promises to be cached.
--   Processor   processor/src: the state and `new` (State), `process_block`, `try_drain` and
--               `handle_new_block` (Process), the messages (Run). Steps and Chain are about one block,
--               Valid and Extend about the chain of stored blocks, Drain and Safety about the loop,
--               Rounds about its length, New about the start, Accepts about the blocks that are
--               accepted, Creations about those with contract creations.
--   Networking  core/networking/src: messages (Message) and their items (Items), the frame codec
--               (Codec) with the proofs RoundTrip, Whole, Frames, Stream and Panic; the loop of a connection
--               (Connection) with Handshake; the loop of the manager (Manager) with Peers, about one
--               message, Registered, about one turn, and Silence, about a run.
--   Node        node/src/main.rs: the task between the manager and the processor. Serve puts the
--               three together.
--   BlockBuilder block-builder/src: all of its operations. Built is about the transactions of a
--               block, Follows about its header and the state of the builder.
--   Examples    the theorems at concrete inputs.
--
-- How code is read. `&mut self` with `?` is a function from a state to a result and a state, so that
-- what was written before an error stays written. `panic` stands for a thread that panics: a
-- transaction without a recipient reaches `todo!()` in the executor and ends so, and the decoders of
-- items and frames end so where a slice, a copy, an index or the buffer is out of range (Slices).
-- Integers are native
-- numbers with the modulus of their width written out in each checked or wrapping operation; a value
-- of a Rust type is one with the bounds of Types/Valid. A byte array is the list of its bytes. Maps
-- are association lists; the order of a `HashMap` is the order of the list, which the state root
-- would show only if it depended on it. The cell behind the shared head is a field that only the
-- processor writes, and the messages of the channel come one after the other. A loop over `select!` is
-- a function of its turns: what was selected in each, and which channels were open in it, so that a
-- theorem about all turns is one about all orders of events and all failures of a send. The map of
-- peers gives its entries in the order of the list. The first key of a full cache, which is evicted,
-- is the parameter `KeyOrder`, since the standard library leaves it open. The stream that calls the
-- frame decoder is not part of the repository: Networking/Stream has a reader that calls `decode` on
-- its buffer until there is no message, as `Decoder` documents.
--
-- Fuel. `decode` runs on twice the length of its input and one; the drain of the queue runs on the
-- number of its entries. That both are enough is among the results; a drain without fuel would stop.
--
-- Not modelled: the feature `optimism`; the bits of a bloom (core/types); sockets and the command
-- line (client.rs, server.rs and main.rs of core/networking, the rest of node), which are input and
-- output; and logging.
pub mod Prelude
pub mod Types
pub mod Rlp
pub mod Codec
pub mod Trie
pub mod Signing
pub mod Execution
pub mod Networking
pub mod Processor
pub mod BlockBuilder
pub mod Node
pub mod Examples
