-- ===== src/Tests.antt =====
-- A small ledger, and the theorems at concrete inputs.
mod Ledger
mod OnceOnly
mod Decisions
mod Revocation
mod Maintenance
mod Documents
mod Issued
mod Service
mod Shop
mod Calls
mod EndToEnd
mod Http
mod Instance
