-- ===== src/Client.antt =====
-- web/src/main.ts.
pub mod State
pub mod Keyring
pub mod Membership
pub mod Lifecycle
pub mod Joining
pub mod Transfer
pub mod Upload
pub mod Invites
pub mod Handshaking
pub mod Connecting
pub mod Dispatch
mod Tests
mod Scenarios
mod Arrivals
mod Exchanges
mod Meetings
mod Runs
