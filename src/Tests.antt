-- ===== src/Tests.antt =====
-- The theorems at concrete inputs, and runs of the code on small data.
mod Pools
mod Routes
mod Balance
mod Faults
mod Rates
mod Cache
mod Chains
mod Sessioned
mod Configured
mod Discovery
mod Retries
mod Validation
mod Launches
mod Refreshed
mod Frames
mod Receiving
mod Rotations
mod Connections
mod Found
