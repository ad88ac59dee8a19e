-- ===== src/Tests.antt =====
-- Runs of the models, and the theorems at concrete inputs.
mod Ingest
mod Server
mod Flow
mod Batch
mod Lookup
mod Keys
mod Daemon
mod Worker
mod Parts
mod Tools
