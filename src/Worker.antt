-- ===== src/Worker.antt =====
-- The analytics worker: engine/internal/orchestration/analytics_service.go and
-- engine/internal/clickhouse/writer.go. Events are gathered under a lock, and a loop swaps the
-- buffer out and hands it to the writer when its channel or its ticker says so.
pub mod Writer
pub mod Service
pub mod System
pub mod Conserved
pub mod Ordered
pub mod Drain
pub mod Retry
pub mod Main
