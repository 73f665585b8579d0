-- ===== src/Sink.antt =====
-- crates/axl-runtime/src/engine/bazel/sink: the upload of build events to a BES backend.
pub mod RetryBuffer
pub mod Scalars
pub mod Reconnect
pub mod Stream
pub mod Upload
pub mod Handle
mod Tests
mod StreamTests
mod HandleTests
