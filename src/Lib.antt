-- ===== src/Lib.antt =====
-- Onceproof: proofs that are issued to a client and redeemed at most once.
--
-- The program keeps a ledger in one SQLite file (src/onceproof/store.py). A client is registered
-- with two credentials, one to issue proofs and one to verify them. `Store.issue_proof` stores a
-- proof by its keyed digest; `Store.consume_proof` decides a verification and, if it accepts,
-- consumes the row in the same transaction. Every decision is stored with its result, and a request
-- that is repeated under its idempotency key gets that result again. Credentials are rotated with a
-- grace, clients are revoked, old rows are deleted by `Store.cleanup`, and a backup is a sealed copy
-- that has to be activated, which ends all authority in it. The digests are keyed by root keys in a
-- file of their own (src/onceproof/keyring.py).
--
-- Base            tests on numbers and texts, the list functions of SQL statements, and uniqueness
-- Errors          src/onceproof/errors.py with the built-in exceptions, by their messages
-- Model.Records   the data classes of src/onceproof/model.py
-- Model.Json      the values of `json`; `json.dumps` and `json.loads` are a parameter, a `Codec`
-- Model.Codec     `to_dict` and `from_dict`; Model.RoundTrip has their theorems
-- Store.Tx        a transaction: reads and writes of a state that may raise; `write` is `_write`
-- Store.Rows      the tables of `_create_schema`, one list of rows for each
-- Store.Tables    the INSERT statements and DELETE FROM credentials, with the constraints they check
-- Store.Shared    `_credential_is_accepted`, the join with clients, `_require_operational`,
--                 `_register_hash_key`
-- Store.Rate      `_consume_rate_slot`; Store.Window has its theorems
-- Store.Clients   `create_client`, `rotate_credential`, `revoke_client`, `client`, `credential`
-- Store.Issue     `issue_proof`; Store.Issued has its theorem
-- Store.Consume   `consume_proof`, `_idempotent_result`, `cached_verification`; Store.Consume.Rules has
--                 the results and the tests on a row
-- Store.Maintenance  `cleanup`, `activate_restored_backup`, the seal of `backup`,
--                 `hash_key_is_in_use`
-- Store.Calls     a history: the calls that write, in the order in which they take the write lock
-- Store.Keeps, Store.Statements  how an invariant of the statements becomes one of all histories
-- Store.Consistency  the primary keys, unique columns and foreign keys of five tables, which the
--                 statements check themselves; a hypothesis of the theorems
-- Store.Outcome   what a call of `consume_proof` that returned went through
-- Store.OnceOnly, Store.Timely, Store.Decisions, Store.Acceptance  the decision on a proof, with
--                 Store.Answer, what it answers
-- Store.Idempotency, Store.Retry, Store.CachedRead  requests that are repeated
-- Store.Revocation, Store.CutOff, Store.Rotation, Store.Restore, Store.Cleanup  the life of clients,
--                 of credentials and of the ledger itself
-- Keyring.Payload, Keyring.Ring  the file of root keys and `class KeyRing`; Keyring.Shape and
--                 Keyring.InStep have their theorems, Keyring.Lookup what a key is after them
-- Store.Registered  what a call of `create_client` that returned has added
-- Store.Reports   `ready`, `status` and the other reads that report
-- Crypto          src/onceproof/crypto.py; Crypto.Domains has its theorem
-- Service         `class OnceproofService` of src/onceproof/service.py: Service.Secrets and
--                 Service.Inputs have the texts and the checks on arguments, Service.Runtime the
--                 state, authentication and `_maybe_cleanup`, Service.Issue and Service.Verify the
--                 two commands, Service.Clients, Service.Upkeep and Service.Ready the rest
-- Service.Keys, Service.SecretNames, Service.Authentication, Service.Verified, Service.Issuing,
--                 Service.EndToEnd, Service.Registered, Service.KeysHeld  its theorems;
--                 Service.Frames, Service.Minted and Service.Redeemable have the lemmas that they share
-- Http            src/onceproof/http.py: Http.Headers, Http.Body, Http.Handler, Http.Routes and
--                 Http.InFlight; Http.Unauthenticated, Http.Answers, Http.Challenge, Http.Bounded
--                 and Http.Framing have the theorems, Http.Parsed and Http.Arguments their lemmas
-- Files           what the code asks of the file system, and `KeyRing.load`
-- Config          `load_config` of src/onceproof/config.py; Config.Safe has its theorem
-- Cli             src/onceproof/cli.py: Cli.Commands has the commands, Cli.Payloads what they print or
--                 write, Cli.Backup `_verify_backup_directory`, Cli.Exit `main`; Cli.Recoverable,
--                 Cli.Revoked and Cli.Checked have the theorems, Cli.Manifest and Cli.Opened their lemmas
-- Tests           a small ledger, a small keyring, a service with one client, and its files
--
-- A table is a list whose rows stand in the order of insertion, the last one first; `fetchone` is the
-- first match, which the constraints make the only one wherever the code relies on it. Times are
-- natural numbers: a bound `x < now - n` is written `x + n < now`. The clock and the random source
-- are arguments of each call. The transactions of SQLite are taken to be serial, as BEGIN IMMEDIATE
-- makes them, so that a history is a list of calls; a call that raises leaves the database as it was
-- (`write`). Every loop of the code runs over a list, so nothing needs fuel but `_new_kid`, whose
-- draws are given as a list: `rotate` has no identifier as long as all of them are in use.
--
-- A keyring file is written by a rename whose outcome is an argument (`Replacement`). The module
-- `base64` is a parameter. A file that is not JSON is unreadable here even where a key that occurs
-- twice stands before the error.
--
-- The service works on the pair of the ledger and the keyring, with the time of its next cleanup. It
-- calls the store through `on_database`, and each call of a command is a sequence of such calls
-- without a break. The code holds no lock over the sequence: another writer may commit between the
-- authentication, the read of an earlier decision and the decision, which is not covered for the
-- service; the calls of the store are, in any order. HMAC, SHA-256 and the encoding of texts are a
-- parameter (`Hashing`), as are the compact `json.dumps` of a fingerprint and, at the HTTP boundary,
-- `json.loads` (`Wire`). Texts are texts of Unicode scalar values: a lone surrogate, which a JSON
-- document can hold, has no counterpart here. A request at the HTTP boundary is given the messages
-- that arrive within the timeout of its body; where they end, the timeout is over. The headers that
-- every response has are left out.
--
-- A file system is a snapshot (`Files`), which no other process changes while a command runs; the
-- keyring file is the one part of it that commands write. The text of a file is a value of the
-- codec's texts: a file that is not UTF-8 has no counterpart. `tomllib`, `ipaddress`, the SHA-256 of a
-- file and the opening of the SQLite file are arguments.
--
-- Not modelled: `initialize_instance` and the rendering of a configuration, the commands `init`,
-- `serve` and `db backup` with its directory, the parsing of arguments, the writing and syncing of
-- files, locks (src/onceproof/locking.py), SQLite itself and the start of the HTTP server.
pub mod Base
pub mod Errors
pub mod Model
pub mod Store
pub mod Keyring
pub mod Crypto
pub mod Service
pub mod Http
pub mod Files
pub mod Config
pub mod Cli
pub mod Tests
