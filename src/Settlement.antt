-- ===== src/Settlement.antt =====
-- The settlement drivers of web/two_party.js: each side's run over its persisted store.
pub mod Types
pub mod Exec
pub mod Calls
pub mod Lock
pub mod Signing
pub mod Opening
pub mod Refunds
pub mod SideB
pub mod SideA
mod Steady
pub mod Scanning
pub mod Waiting
pub mod Locks
pub mod Trail
mod Guard
pub mod SafeB
pub mod SafeA
