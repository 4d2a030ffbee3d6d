-- ===== src/Database.antt =====
-- include/database.hpp, src/database.cpp and include/db_queue.hpp: the wire types, the in-memory
-- backend and the queue over it.
pub mod Value
pub mod Memory
pub mod Select
pub mod Queue
pub mod Repository
pub mod Migration
pub mod Schema
