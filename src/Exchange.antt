-- ===== src/Exchange.antt =====
-- adapters/shared_message_store.py: the message store on a shared disk, one module for each part.
pub mod Platform
pub mod Segment
pub mod Reading
pub mod Artifact
pub mod Message
pub mod Job
pub mod Stage
pub mod Writes
pub mod History
