-- ===== src/Examples.antt =====
-- Tests of the modelled code, and the theorems at concrete inputs.
pub mod Fixtures
mod Addresses
mod Pools
mod Rates
mod Egresses
mod Identities
mod Blocks
mod Policies
mod Intents
mod Firewall
mod Names
mod Balancers
mod Owners
mod Nodes
