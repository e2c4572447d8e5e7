-- ===== src/Lib.antt =====
-- Sapphire signs Zcash transactions with a FROST group of validators that coordinate over a chain.
-- The parts modelled here are the chain's state machine and simulator, the escrow predicates, the
-- node that signs behind a policy, the participant of a key generation and the key generation in one
-- process, the session that drives nodes and chain to a signature, the signer of a bundle, the network
-- between validators, and the three commands of the command line.
--
-- How the parts interact. `Chain.Tx` are the messages, `Chain.State` is what every validator holds,
-- and `apply_tx` is the only way from one state to the next: a key generation ceremony (round 1,
-- round 2, finalization) or `InitGroup` makes a group; then requests collect commitments up to the
-- threshold, shares of the selected participants, and one aggregation. `ChainSim` keeps a mempool and
-- applies it in order, block by block. A node reads the chain's state in `react`, asks its policy
-- before it commits to a request, and answers with transactions; `EscrowPolicy` approves a message if
-- it is a proposal that `validate_settlement` accepts under the node's own terms.
-- `drive_signing_session` submits a request and then, for at most eight rounds, lets every node react
-- and commits a block; `sign_pczt_orchard_bundle` runs one such session for each action it has to sign.
-- A connection of the mesh is a TCP stream, the Noise handshake on it, and two tasks that carry frames.
-- `cmd_keygen` stores what `generate_with_dkg` returns; `cmd_oracle` runs the predicate that the policy
-- of a node runs; `cmd_escrow_demo` makes a group over the chain, turns its participants into nodes with
-- the policy of one escrow, and has them sign a release and refuse another.
--
-- Which file models what.
-- - Base, Base/Tests, Base/Lists, Base/Outcome, Base/Order: Boolean tests on native numbers, lists,
--   `Result` with its do blocks, Rust's `Ord`.
-- - Base/Map and below: `BTreeMap` and `BTreeSet` as association lists in key order, with their laws.
-- - Core: sapphire-core/src/params.rs, error.rs, protocol.rs. Core/Text: a request id as text.
-- - Frost: what the program uses of the crates frost_core and frost_rerandomized, as a record.
-- - Chain/Tx: sapphire-chain/src/tx.rs. Chain/State: the types of sapphire-chain/src/state.rs, and
--   `r1_complete`, `r2_complete`, `finalize_complete`. Chain/Apply: `apply_tx`, with one function
--   `apply_<variant>` for each arm of its `match`, and `require_group`.
-- - Chain/Sim: sapphire-chain/src/sim.rs, `ChainSim::{new, submit, commit_block}`.
-- - Chain/Effects, Chain/Validity, Chain/Reach, Chain/Progress, Chain/Rounds, Chain/Selection,
--   Chain/Signature, Chain/Quorum, Chain/Stuck, Chain/Sim/Laws, Chain/Sim/Reach: proofs.
-- - Escrow: sapphire-escrow/src/lib.rs, the types, `validate_settlement` and `validate_refund`.
--   Escrow/Verifiers: sapphire-escrow/src/verifiers.rs. Escrow/Laws, Escrow/Exclusion: proofs.
-- - Node/Policy: sapphire-node/src/policy.rs. Node/Signer: sapphire-node/src/lib.rs, `commit`,
--   `sign_share_rerandomized` and `react`, with one function for each arm of its `match`.
--   Node/Steps, Node/Memory, Node/Once, Node/Nonces, Node/Gate, Node/Safety: proofs, over a
--   relation of what `react` may do about one request.
-- - Zcash/Session: sapphire-zcash/src/lib.rs, `drive_signing_session` with its loops. Zcash/Clean,
--   Zcash/Round, Zcash/Sound, Zcash/Refused: proofs.
-- - Zcash/Pczt: sapphire-zcash/src/pczt.rs. Zcash/Ready, Zcash/Bundle, Zcash/Actions: proofs.
-- - Keygen/Ceremony: sapphire-keygen/src/dkg.rs. Keygen/Posted, Keygen/Rounds,
--   Keygen/Whole, Keygen/First, Keygen/Transcript, Keygen/Generate: proofs.
-- - Keygen/Envelope: sapphire-chain/src/dkg_envelope.rs, `seal` and `open`. Keygen/Participant:
--   sapphire-node/src/dkg.rs, with `react` as `participate`. Keygen/Steps, Keygen/Laws: proofs.
-- - Net/Codec: sapphire-net/src/codec.rs. Net/Handshake: sapphire-net/src/handshake.rs, the two roles
--   over a stream. Net/Connection: `drive_connection` of sapphire-net/src/mesh.rs, one round of a task's
--   loop at a time. Net/Mesh: the rest of mesh.rs, the configuration, the listener, the dialers and
--   `retrying_connect`. Net/Sockets, Net/Noise: what these use of tokio and snow, as records.
--   Net/Frames, Net/Written, Net/Wire, Net/Rounds, Net/Receiver, Net/Sendable, Net/Sending, Net/Sender,
--   Net/Delivery, Net/Meeting, Net/Dial, Net/Retry, Net/Admission, Net/Link: proofs.
-- - Cli/Console: the prompts of sapphire-cli/src/main.rs. Cli/Oracle: `cmd_oracle`, with its exit code.
--   Cli/Keygen: `cmd_keygen` of the same file. Cli/Demo: `cmd_escrow_demo`, in the phases of its
--   headings. Cli/Demo/Forming, Cli/Demo/Formed, Cli/Demo/Steady, Cli/Demo/Owed, Cli/Demo/Complete,
--   Cli/Demo/Enrolled, Cli/Demo/Everyone, Cli/Demo/Ready, Cli/Demo/Safe, Cli/Demo/Refused, Cli/Demo/Run,
--   Cli/Demo/Whole: proofs. Cli/Oracle/Laws, Cli/Keygen/Stored: proofs.
-- - Tests: runs over a small scheme, and each theorem at concrete data.
--
-- How the code corresponds to the model. State is passed explicitly: a handler takes the state and
-- returns the next one or the error that the code returns, with the code's guards in the code's order.
-- A `u16` is a native number below 65536 and a `usize` one below 2^64; casts and products that wrap
-- in the code wrap here. Identifiers are any type with a total order. Loops are recursion on the list
-- they consume, or count down from the bound that the source gives: `drive_signing_session` has eight
-- rounds, after which it returns the source's own error.
--
-- The two tasks of a connection run by rounds, in the order that a list gives: a round holds the lock of
-- the transport for one call, and the halves of the stream are not shared. What a stream will still
-- bring is a value of the model that no code reads, so a reader that waits is one whose round comes
-- later. `retrying_connect` counts the twenty rounds of the source, and `dkg_blocks` the twenty blocks of
-- the demo, after which each returns the source's own error.
--
-- The node and the random generator are passed on as each step leaves them, also where it fails.
--
-- What is assumed. The hash of the crate sha2 and the formats of serde_json, hex and thiserror are
-- parameters; so are the crate crypto_box (`CryptoBox`, with the laws of `IsLawfulBox`) and the key
-- generation functions of frost_core (`DkgScheme`). The FROST crates are the parameter
-- `Ciphersuite`. The theorems that need laws of them name `IsLawful`: equality tests decide equality, a public key package lists its shares in
-- order, a signing package keeps its message, and `aggregate` returns only signatures that verify
-- under the randomized key.
--
-- The streams of tokio and the handshake of snow are the parameters `Sockets` and `Noise`. `IsReliable`
-- says that a stream keeps bytes in order and whole, `IsLawfulNoise` that the ends of a channel stay in
-- step and that its two directions do not meet, `Exchange` is a run of the handshake, message by message.
--
-- `Libraries` is what the demo calls of frost_core, rand, sha2 and serde_json; `IsInjective` and
-- `Decodes` say that numbers have identifiers of their own and that a proposal that is written reads back.
-- `Str` is what the prompts use of the strings of the standard library, `Disk` the calls of std::fs with
-- the writer of serde_json; `IsReliable` of Cli/Keygen/Stored says that a file holds what was written to it.
--
-- `Orchard` is what the bundle signer uses of orchard: `apply_signature` accepts and stores what
-- verifies under the action's key (`IsLawfulOrchard`).
--
-- Two `expect`s have no panic here: that of `promote` on the first package of a full round, which is
-- there since a ceremony has participants, and that of `seal` on the encryption of crypto_box, which
-- fails only on messages of a size that a package does not reach.
--
-- What is not modelled. JSON, disk formats,
-- the channels and the scheduler of tokio, logging, and the arguments and the printing of the command
-- line are input and output around this core, or calls of other libraries.
pub mod Base
pub mod Core
pub mod Frost
pub mod Chain
pub mod Escrow
pub mod Node
pub mod Zcash
pub mod Keygen
pub mod Net
pub mod Cli
pub mod Tests
