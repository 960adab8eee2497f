-- ===== src/Tests.antt =====
-- The theorems at concrete inputs: networks and packets that stand for the crates, and a run of
-- each theorem that has conditions.
pub mod Network
pub mod Packets
pub mod Programs
pub mod Rules
pub mod Pending
pub mod Sessions
pub mod Replies
pub mod Calls
pub mod Frames
pub mod Client
pub mod Static
pub mod Files
pub mod Nft
pub mod Routes
