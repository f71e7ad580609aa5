-- ===== src/Kv.antt =====
-- lab4/kv: the sharded key-value store.
pub mod Shard
pub mod Sharding
pub mod ShardMap
pub mod Server
pub mod Client
pub mod Cluster
pub mod ClientPool
pub mod FileShardMap
pub mod Tests
