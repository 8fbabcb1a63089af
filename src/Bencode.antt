-- ===== src/Bencode.antt =====
-- src/aiobt/bencode.py: the bencode format. The values, the decoder and the encoder are in the
-- modules below, each followed by the modules that prove what it does.
pub mod Value
pub mod Decode
pub mod Encode
pub mod Sorted
pub mod Scalars
pub mod Readers
pub mod RoundTrip
pub mod Order
pub mod Stable
pub mod Lookup
pub mod Lenient
mod Examples
