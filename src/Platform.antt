-- ===== src/Platform.antt =====
-- What the engine's handlers stand on: the Redis client, an interface, and the Postgres tables.
pub mod Redis
pub mod Postgres
