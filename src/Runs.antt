-- ===== src/Runs.antt =====
-- The theorems at concrete inputs, and known answers of the code.
mod Policy
mod Ots
mod Packet
mod Embed
mod Carriers
mod Media
