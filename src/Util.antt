-- ===== src/Util.antt =====
-- src/util: the data structures and pure helpers that the servers and clients use.
pub mod LruCache
pub mod ResolverMerging
pub mod PushIterator
pub mod Guards
pub mod CleanOperations
pub mod DepthLimit
