-- ===== src/Mse.antt =====
-- src/aiobt/mse.py: RC4, the encrypted stream, the choice of the crypto method, and the handshake.
pub mod Rc4
pub mod Stream
pub mod Negotiation
pub mod Keys
pub mod Wire
pub mod Handshake
mod Examples
