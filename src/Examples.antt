-- ===== src/Examples.antt =====
-- Runs of the models on concrete inputs, and each result at an input that meets its conditions.
mod HeapRuns
mod Heaps
mod Flows
mod Leases
mod Registries
mod Requests
mod Shards
mod Statistics
mod Lists
mod Prefixes
mod Evictions
mod Graphs
mod Bands
mod Profiles
