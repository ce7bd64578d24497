-- ===== src/Page.antt =====
-- What web/src/main.ts does to the page and what it reads from it: the parts that the messages of the
-- relay do not touch.
pub mod Element
pub mod Sizes
pub mod Members
pub mod Attachments
pub mod Messages
pub mod Leaving
pub mod Lobby
mod Tests
mod Chats
