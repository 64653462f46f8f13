-- ===== src/Examples.antt =====
-- Runs of the models on concrete data: a page session of each part, and the theorems at it.
pub mod Cards
pub mod Chats
pub mod PeerRuns
pub mod CardForms
pub mod BuilderTabs
pub mod Messages
pub mod Drafts
pub mod Feeds
pub mod Frames
pub mod Previews
pub mod Rows
pub mod Runs
pub mod Sessions
pub mod Streams
use ocs_testbench.Common.{ℕ}
