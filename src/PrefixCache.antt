-- ===== src/PrefixCache.antt =====
-- pkg/epp/framework/plugins/requestcontrol/dataproducer/approximateprefix: the approximate index of the
-- prompt prefixes that the servers cache.
pub mod Hashing
pub mod Indexer
pub mod Matching
pub mod Requests
