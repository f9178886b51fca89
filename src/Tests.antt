-- ===== src/Tests.antt =====
-- The theorems applied at concrete inputs, and runs of the definitions.
mod Samples
mod Machines
mod Rpcs
mod Supervisors
mod Clusters
mod Systems
mod Authorities
mod Instances
mod Records
mod Upkeeps
mod Pages
