-- ===== src/Wire.antt =====
-- internal/wire: the encoding of control messages and objects.
pub mod Env
pub mod Fields
pub mod Params
pub mod Rules
pub mod Filter
pub mod Setup
pub mod Fetch
pub mod FetchReply
pub mod Subscribe
pub mod SubscribeOk
pub mod Announce
pub mod Announces
pub mod Status
pub mod Message
pub mod Control
pub mod Encodable
pub mod Quic
pub mod Objects
pub mod Publish
pub mod Token
pub mod Datagram
pub mod Streams
mod Tests
mod Examples
