-- ===== src/Lib.antt =====
-- Verification library for age-plugin-phone: the core crate, which a desktop and a phone share, and the
-- sessions of the desktop.
--
-- The program lets age unwrap a file key with a P-256 identity that lives on a phone. The desktop
-- wraps file keys for recipients (crates/core/src/recipient), sends the phone a signed request, and
-- opens the signed response that carries the file key (crates/core/src/protocol/mod.rs). Both sides
-- keep a file of tokens that they have seen, so that no request and no response is taken twice
-- (crates/core/src/protocol/replay.rs). Messages may travel as a series of QR codes
-- (crates/core/src/protocol/qr.rs). The desktop pairs with a phone once
-- (crates/desktop/src/pairing.rs), keeps the public stub of the pairing in an identity file, and runs one
-- session for each unwrap (crates/desktop/src/unwrap.rs) over one transport
-- (crates/desktop/src/transport_policy.rs, crates/desktop/src/transport.rs).
--
-- Parts, and the files that model them:
--   Base, Base/*            Boolean tests, lists and byte strings over native numbers, `Result` with
--                           the question mark, and `Exec` for methods on `&mut self` that may fail.
--   Cbor, Crypto            The third-party crates minicbor, p256, sha2, hkdf, chacha20poly1305, base64
--                           and bech32: records of operations, and records of the documented behaviour
--                           that some theorems assume. Tests/Rfc8949, Tests/Toy and Tests/Keys are instances.
--   Recipient, Recipient/*  recipient/mod.rs and recipient/tag.rs: texts and bytes of recipients
--                           (Recipient), parsing of stanzas (Stanza), wrapping (Wrap), unwrapping and
--                           selection (Open), the p256tag construction (Tag); laws in Keys, RoundTrip,
--                           Selection and TagRoundTrip.
--   Protocol, Protocol/*    protocol/mod.rs: the messages (Protocol), times (Time), digests and
--                           signatures (Signing), encoders and strict decoders (Encode, Decode), the
--                           signed messages (Messages), accepting a request and opening a response
--                           (Exchange); laws in Reading, RoundTrip, Sizes, Messages/Wire and Exchange/*.
--   Replay, Replay/*        protocol/replay.rs: scopes, entries and their order (Replay), the state
--                           machine (State), the file format (Codec), the file guard (Guard); laws
--                           below each of them and in Order.
--   Qr, Qr/*                protocol/qr.rs: the frames and their text (Frames), `fragment_qr_message`
--                           (Fragments), the reassembler (Reassembler).
--   Pairing, Pairing/*      crates/desktop/src/pairing.rs: the stub and its bytes (Stub), the identity file
--                           (Lines), the session (Session) and its steps (Session/Steps); laws in
--                           Stub/RoundTrip, Lines/RoundTrip, Session/Once, Session/Complete and
--                           Session/Honest.
--   Locator, Locator/*      crates/desktop/src/locator.rs: the record of a locator and the name of its file;
--                           the opening of a pairing (Opening); laws in Records, Names, Pending and
--                           Opened.
--   Journal, Journal/*      crates/desktop/src/cleanup_journal.rs: the journal's encoder and decoders; laws
--                           in RoundTrip and Canonical.
--   Setup                   crates/desktop/src/setup.rs: the journal of a setup, and the pairing it holds back.
--   Unwrap, Unwrap/*        crates/desktop/src/unwrap.rs: the session; laws in Once and Answered.
--   Transport, Transport/*  crates/desktop/src/transport.rs: headers (Transport), messages and the
--                           session (Stream); crates/desktop/src/transport_policy.rs (Policy), with
--                           `valid_serial` of adb.rs and `validate_endpoint` of wifi.rs; laws in Messages,
--                           Stream/Once, Stream/Delivery and Policy/Routes.
--   Discovery, Discovery/*  crates/desktop/src/wifi.rs: the queries and responses by which the desktop
--                           finds the phone on a network, and its loop (Search); laws in Binding
--                           and Unique.
--   Adb, Adb/*              crates/desktop/src/adb.rs: the list of devices and of reverse rules that adb
--                           prints; laws in Selection and Rules.
--   Tests/*                 The theorems at concrete inputs.
--
-- How the code is read. A byte is a number, a byte string or fixed array is a list of numbers, a text
-- is the list of its UTF-8 bytes. A decoder is the part of the message that it has not read. A function
-- that returns `Result` returns `Result`; one on `&mut self` is a function from the state to a result
-- and the state it leaves, errors included. Random scalars and nonces are arguments. `checked_add` and
-- `try_from` are written out with their bounds. `sort_unstable` is an insertion sort by the derived
-- order, a hash set in a loop is a list, and `zeroize` has no counterpart. Every loop is a structural
-- recursion; the chunks of a message are cut with one step for each byte, which is enough as every
-- chunk takes one at least.
--
-- The replay guard. The platform storage is outside: each write is given how it ended (done, failed
-- with the file as it was, failed with the file replaced), and `open` is given what the file holds. A
-- process that stops and starts again is an event that opens the file; one whose `open` fails has no
-- guard and is modelled as a guard that refuses everything.
--
-- Streams. A stream is a parameter: `write_all`, `flush` and `read_exact` over a state of its own.
-- `IsStream` says that bytes arrive in the order in which they were sent and that `read_exact` fills the
-- buffer or fails.
--
-- Paths. A path is the list of its bytes; `Paths` says which are absolute, which end in a name, what the
-- parent of each is and which two are the same, and a path is a text if its bytes are UTF-8. A file in the
-- directory of the pairings goes by its name. What a file holds is an argument. So is what the check of the
-- directory gives, and what the reading of the two journals gives: the bytes of a setup journal and the
-- tests that macOS makes of the root of a journal are not modelled.
--
-- Hypotheses. `IsCbor` says that what is written is read back and how long items are; `IsCrypto` that
-- encodings of points and texts are read back, that Diffie-Hellman commutes, that lengths are as
-- documented, and that what is encrypted is decrypted; `IsBech32` that a text is printable, in lower
-- case, begins with its prefix and is read back. Nothing assumes that a primitive is secure, so
-- no theorem says that a forgery is impossible: they say what was checked.
--
-- Not modelled: the command line, the dialogue with age, the devices behind a transport (processes of
-- adb, sockets, camera and terminal), the steps of setup and cleanup, the macOS replay store, platform
-- keys and platform storage, and the phone's application, of which only the calls of the core crate
-- appear. They are I/O and platform calls, or stand outside the part of the program that this library
-- covers.
pub mod Adb
pub mod Base
pub mod Cbor
pub mod Crypto
pub mod Discovery
pub mod Journal
pub mod Locator
pub mod Pairing
pub mod Protocol
pub mod Qr
pub mod Recipient
pub mod Replay
pub mod Setup
mod Tests
pub mod Transport
pub mod Unwrap
