-- ===== src/Lib.antt =====
-- Verification of cheget, a tool that holds a Bitcoin key as a FROST (t, n) group: a distributed
-- key generation in one process, a two-round signing session over a message board, and a store for
-- encrypted shares.
--
-- The parts, and the files that model them:
--   Crypto/      the key generation (src/crypto/keygen.rs: `run_inprocess_dkg_with_rng` and
--                `confirm_group_key`), the nonces, the aggregation and its check (src/crypto/nonce.rs,
--                src/crypto/sign.rs), the labels (src/crypto/types.rs) and the bridge to Taproot keys
--                (src/bridge/taproot.rs). Crypto/Pool models one parallel round: each worker owns a
--                clone of the round-1 packages, takes a seat's own entry out and puts it back.
--   Transport/   envelopes and their ids (src/transport/envelope.rs), filters and the trait
--                (src/transport/mod.rs), the board (src/transport/inmemory.rs). The byte string
--                that an id hashes piece by piece is written out as one in Transport/Encoding.
--   Session/     the signing session (src/session/): its state is the board and the generator of
--                random numbers, its operations are functions in a state and error monad
--                (Base/Effects), one for each method and each loop of the source.
--   Chain        the transactions as far as they are read or written, the sighash helper
--                (src/chain/sighash.rs), the trait of the backends (src/chain/mod.rs) and its two
--                implementations (src/chain/esplora.rs, src/chain/core_rpc.rs) over their clients.
--   Store/       the index of the shares (src/store/manifest.rs), the errors (src/store/mod.rs), the
--                write of a file as a whole (src/store/atomic.rs), encryption (src/store/crypto.rs),
--                the checkpoints of a key generation (src/store/checkpoint.rs), the shares of a
--                participant (src/store/participant.rs), the transport identity
--                (src/store/identity.rs), the passphrase (src/store/passphrase.rs) and the root
--                directory (src/store/mod.rs), over a file system whose operations and
--                documented effects are the records `Disk` and `IsDisk` of Store/Disk.
--   Coordinator/ the coordinator's public database (src/coordinator/): its schema and structs, the
--                operations of `CoordinatorStore`, and `migrate`. The SQL statements of the source are
--                data (`Insert`, `Select` and `Table` of Coordinator/Sql); the connection is the
--                record `Engine`, and what SQLite documents of it is `IsSqlite` of
--                Coordinator/Sqlite, with what the connection reads and what is durable, that is,
--                what a crash of the process leaves. Runs of any insertions, with what the tables
--                should hold behind them, are those of Coordinator/Replay.
--   Cli/         the commands (src/cli/): the public artifact and the address of a group (Cli/Address),
--                the key generation with its stored seats (Cli/Keygen), signing from the arguments to
--                the transaction (Cli/Sign), the shares that are stored and loaded again
--                (Cli/Reloaded), the listings (Cli/Status) and the dispatch (Cli/Dispatch). What the
--                handlers call of the system is the record `System` of Cli/System.
--   Base/        results, texts as lists of bytes, sorted association lists for `BTreeMap`, the
--                hexadecimal codecs (also of src/store/participant.rs and src/cli/address.rs),
--                decimal numbers, and code that works on a state and may fail.
--   Tests/       toy instances of the packages that the program calls, and runs at concrete inputs.
--
-- The session calls the transport only through the record `Transport`, which `in_memory` fills; it
-- calls the cryptography through the records `Frost` and `Signing`, and rust-bitcoin through
-- `Bitcoin`. These packages are not part of the repository, so their functions are parameters, and
-- a theorem names what it relies on: `RanksIndices` (identifiers are ordered as the seat indices
-- that they are made of), `AgreesOnKey` (the two packages of one seat carry one verifying key),
-- `KeepsMessage` (a signing package returns the message that it was made with), `ReadsBack` (a
-- reader reads what its writer wrote), `Unseals` (age decrypts what it encrypted), `IsDisk` (the
-- effects of file operations), `IsRestart` (what of them a crash leaves) and `IsSqlite` (the
-- effects of statements and transactions). How rusqlite converts a column (a text, a number, a
-- blob, or NULL for `None`) is written out in Coordinator/Rows from its documentation. How rayon
-- deals seats out to workers is a parameter too, of which only the order is used.
--
-- Numbers are natural numbers with the wrap-around of the source's widths written out: seats are
-- taken modulo 2 ^ 16, hashes, epochs and the size of a poll modulo 2 ^ 64. No fuel is used but the twenty
-- digits of a decimal number, enough for a 64-bit number; all loops are recursion on the sequence
-- or the count that the source iterates over.
--
-- Not modelled: the parsing of arguments by clap, the wording of errors and prompts, and the exit
-- code (src/main.rs). File modes and the wiping of memory have no counterpart in the model. Amounts
-- are summed by rust-bitcoin, whose overflow is not modelled.
pub mod Base
pub mod Crypto
pub mod Transport
pub mod Store
pub mod Chain
pub mod Session
pub mod Cli
pub mod Coordinator
mod Tests
