-- ===== src/Lib.antt =====
-- A model of the KeyMint trusted application (Rust), and theorems about it.
--
-- The trusted application keeps keys for Android. It takes requests from the HAL service, holds the
-- operations in progress in a table, and calls cryptography and device services through traits.
-- Its parts here, with the source that each models:
--
-- Wire        wire/src/keymint.rs: the enumerations with their numbers, and `KeyParam`. A Rust name
--             `FooBar` is the constructor or function `foo_bar`.
-- KmError     common/src/lib.rs: the errors.
-- Tag.Legacy  common/src/tag/legacy.rs: `serialize` and `deserialize` (Serialize, Consume,
--             Deserialize), the documented layout (Layout, Format), how the readers read it
--             (Readers, RoundTrip), and where the code panics (Panics).
-- Tag.Info    common/src/tag/info.rs: the table of tag information (Kinds, Table), its lookup and
--             `DuplicateTagChecker::add`; that the table is consistent (Facts).
-- Tag.Params  common/src/tag.rs: the macros that look for a variant, with the variant given by a
--             function (Select), and what they return (Single, Contained).
-- Tag.Characteristics  `characteristics_valid`, `transcribe_tags`, `characteristics_at`, `hidden`.
-- Tag.Extract, Tag.Order  `extract_key_characteristics`, and `param_compare` of
--             common/src/tag/legacy.rs.
-- Tag.Generate  the checks for key generation and import (Import), and what they say about the size
--             of a key (Sizes, Deduced, Matching).
-- Tag.Begin   `check_begin_params` and the checks of each algorithm (Ciphers, Signatures), and what
--             they say about the key (Listed, Authorised).
-- Crypto      common/src/crypto.rs and crypto/: key material (Keys), the modes of operations (Modes),
--             and that parameters which pass the begin checks have one (AesFacts, Accepted, Rsa).
-- Tag.Luhn    common/src/tag.rs: `luhn_checksum`.
-- Tag.Imei    common/src/tag.rs: `increment_imei`.
-- Keyblob     common/src/keyblob/sdd_mem.rs: the in-memory manager of secure deletion secrets.
-- Ta          ta/src: tokens and their MAC inputs (Tokens), what comes from outside (Platform),
--             authentication (Auth), use counts (UseCounts), splitting of responses (Response),
--             the versions of key blobs (Versions), boot and HAL information (Boot), the negotiation
--             of the HMAC key (SharedSecret), and operations (Operation): the table (Table, Lookup),
--             the cryptographic part of an operation (Crypto, Closures), confirmation (Confirm), the
--             handlers `op_update_aad`, `op_update`, `op_finish` and `op_abort` (Handlers), the parts
--             of `begin_operation` (Begin), and what the handlers do (Lifecycle, Progress, Failure,
--             Finish, Stranded, Verdict).
-- Common      shared helpers: tests on numbers, lists, results, bytes.
-- Tests       runs on concrete inputs.
--
-- A function that returns `Result` is one into `Outcome`, which also has the case of a panic: a slice
-- out of range, or an addition that overflows (`usize` has 64 bits and overflow is checked). A
-- handler takes the state (`KeyMintTa`) and returns its result with the state that it leaves. The
-- fields of the state are those that operations read or write; `dev.sdd_mgr` stands beside them.
-- Integers of fixed width are natural numbers below the bound of their type, an `i64` is its bit
-- pattern, and bytes are numbers. The byte order of the target is a parameter.
--
-- Cryptographic operations, the secure deletion manager, the comparison in constant time, the clock,
-- the user presence, the device's HMAC, the import of key data and the derivation of the shared key
-- are parameters (`Platform`, `Env`, `Importers`, `Negotiation`): nothing is assumed about what they
-- return. The random generator of the modes is the sequence of the bytes that it gives. One answer
-- of the environment holds during one request.
-- Allocation succeeds, and the text of errors is left out.
--
-- Loops are recursive on their list, or on fuel. The splitting of a response has one more than the
-- length of the response as fuel: each turn takes at least one byte. The sum of digits and the
-- printing of a number have the number itself: each turn divides it by ten. The loop that draws a
-- handle runs over the list of values that the generator gives.
--
-- Not modelled: the CBOR, DER and COSE encodings, certificates and remote provisioning, which
-- external libraries do; the HAL service and the BoringSSL bindings, which are glue; the derive
-- macros; the encryption of key blobs, the creation of keys after the parameter checks, the creation
-- of operations other than HMAC, and the dispatch of requests.
pub mod Common
pub mod Crypto
pub mod Wire
pub mod KmError
pub mod Tag
pub mod Ta
pub mod Keyblob
pub mod Tests
