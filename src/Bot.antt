-- ===== src/Bot.antt =====
-- internal/bot: the handlers.
pub mod Frame
pub mod Thread
pub mod Tasks
pub mod Merge
pub mod Member
pub mod Approve
pub mod Closing
pub mod Cancel
pub mod Reject
pub mod Submit
pub mod Ecr
pub mod Command
pub mod Mention
