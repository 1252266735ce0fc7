-- ===== src/Session.antt =====
-- The session layer: the files of the repository's root directory.
pub mod Errors
pub mod Ids
pub mod LocalTracks
pub mod RemoteTracks
pub mod State
pub mod Handshake
pub mod Window
pub mod Streams
pub mod Announcements
pub mod Texts
pub mod Parameters
pub mod Tracks
pub mod Peer
pub mod Replies
pub mod Writers
pub mod Handlers
pub mod Answers
pub mod Receive
pub mod Requests
pub mod Announcing
mod Tests
mod Examples
mod StreamExamples
