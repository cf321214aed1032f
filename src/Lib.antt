-- ===== src/Lib.antt =====
-- A model of the core of Steganographer, the crate steganographer-core, with proofs about it.
--
-- Steganographer hides signed payloads in media. A packet has a fixed 32-byte locator, a canonical
-- TLV envelope and a body (steganographer-core/src/packet.rs). A carrier kernel writes the packet's
-- bits to slots that a keyed permutation chooses (placement.rs). The older streaming form signs each
-- frame (crypto.rs), may share a signature between frames (multi_frame.rs), and chains frame hashes
-- into Merkle roots (hash_chain.rs).
--
-- The files, and what they model:
--   Common         lists, bits, bytes and results over native numbers, shared by all parts
--   Packet         packet.rs: Types its data; Locator `Locator::{new, to_bytes, from_bytes,
--                  packet_len}`; Integer the minimal integers; Crc `crc32c`; Wire the TLV pieces and
--                  UTF-8; Envelope `validate_envelope`, with Encode and Decode for
--                  `PacketEnvelope::{encode, decode}`, one function for each field's handler; Generic
--                  `GenericPacket::{new_untransformed, encode, decode}` and its checks;
--                  Ots `OtsMetadata::{from_extensions, to_extensions}`
--   Crypto         crypto.rs: `SignaturePayload`, `HashAlgorithm::hash`, `Signer::sign_frame`,
--                  `Verifier::verify`, hexadecimal text
--   HashChain      hash_chain.rs: `HashChain` with `add_frame`, `finalize_segment`, `build_root`,
--                  `verify_chain`, and `compute_merkle_root`
--   Kdf            kdf.rs: the subkeys of a master secret and of an embedding key
--   Placement      placement.rs: `KeyedPermutation` with its Feistel network and cycle walking;
--                  Interleaved `InterleavedSchedule` with `gcd` and the search for a stride
--   MultiFrame     multi_frame.rs: both `split` functions and both reconstructions
--   Carrier        carrier.rs: descriptors, capacities, `constant_time_eq`; Spatial the loops that
--                  write and read a unit's low bits; Embed `embed_sequential_lsb` and
--                  `extract_sequential_lsb`, with Keyed for the keyed and the interleaved kernels
--                  and Carriers for the carrier types
--   Video          video.rs: `VideoFrame::validate_packed_layout`; lsb_video.rs:
--                  `LsbVideo::byte_offset`
--   Revocation     revocation.rs: `insert` and `is_revoked` of the sorted registry, and the binary
--                  search they call
--   Runs           the theorems at concrete inputs, and known answers
-- A function's proofs stand in child modules named for what they prove.
--
-- Integers are natural numbers, with the wrap-around of their width written where the code can reach
-- it; `usize` has 64 bits. Byte strings and arrays are lists of numbers, a Rust `String` the list of
-- its UTF-8 bytes, a `Result` the type Result of Common. Error texts are constructors.
--
-- Third-party code is a parameter: the digests (BLAKE3, SHA-256, SHA-3, keyed BLAKE3), Ed25519 and
-- the masks that the operating system draws.
--
-- Fuel: the loop over an envelope's fields has the input's length, since each round reads a header;
-- the Merkle loop has the number of leaves, since a level is shorter than the one below it; a cycle
-- walk has the size of the Feistel domain, since the network is a permutation of it; the search for
-- a coprime stride has the length, since it comes to the candidate one.
--
-- Not modelled: the transform pipeline and nested decoding of packet.rs, the streaming LSB kernels
-- of lsb_video.rs and lsb_audio.rs, carrier bindings, the JSON form of the registry. Left out:
-- floating-point signal processing, analysis, drawing, configuration, network and file access, and
-- the front ends.
pub mod Common
pub mod Packet
pub mod Crypto
pub mod HashChain
pub mod Placement
pub mod MultiFrame
pub mod Carrier
pub mod Kdf
pub mod Video
pub mod Revocation
pub mod Runs
