-- ===== src/Analytics.antt =====
-- The routes of engine/cmd/analytics-api/main.go, and the handlers of
-- engine/internal/analytics/service.go as far as they read the request.
pub mod Path
pub mod Reports
pub mod Token
pub mod Semaphore
pub mod Dates
pub mod Routes
