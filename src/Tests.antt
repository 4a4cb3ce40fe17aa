-- ===== src/Tests.antt =====
-- Runs of the definitions at concrete inputs, and the theorems at inputs that meet their hypotheses.
mod Machine
mod Deals
mod Relay
mod Wires
mod Beacons
mod Books
mod Settlements
mod SettlementRuns
mod Responders
mod Meetings
mod Resumes
mod Wallets
mod Custodies
