-- ===== src/Networking.antt =====
-- core/networking: messages, frames, connections and the peer manager.
pub mod Message
pub mod Items
pub mod Codec
pub mod RoundTrip
pub mod Frames
pub mod Stream
pub mod Whole
pub mod Panic
pub mod Connection
pub mod Handshake
pub mod Manager
pub mod Peers
pub mod Registered
pub mod Silence
