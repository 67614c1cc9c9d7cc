-- ===== src/Cache.antt =====
-- The key-value store of a server: server/Db.h, server/Db.cc, server/lruMap.h, server/lruMap.cc.
pub mod Nodes
pub mod Db
pub mod LruMap
