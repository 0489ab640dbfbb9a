-- ===== src/Http2.antt =====
-- The streams of an HTTP/2 connection, src/http2/.
pub mod Stream
pub mod Reading
pub mod Prepared
pub mod Fields
pub mod Incoming
pub mod Client
pub mod Target
pub mod Frames
pub mod ClientFrames
pub mod ClientSession
pub mod Losses
pub mod Survivors
pub mod FrameCalls
pub mod RequestFields
pub mod RequestFrames
pub mod ResponseFrames
pub mod Responses
pub mod Sent
pub mod Session
pub mod Listeners
pub mod Writer
mod Tests
mod Examples
mod SessionExamples
