-- ===== src/Tests.antt =====
-- Runs of the definitions, and uses of the theorems, at concrete inputs.
mod Claims
mod Instances
mod Flooding
mod Fragments
mod Containers
mod Numbers
mod Bonds
mod Coding
mod Clients
mod Gateways
mod Broadcasts
mod Duplicates
mod Queues
mod Routers
