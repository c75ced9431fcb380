-- ===== src/Tests.antt =====
-- Small databases, and what the orchestrator does on them.
mod Data
mod Orchestrator
mod Runs
mod Hub
mod Uploads
mod Pipelines
mod Listings
mod Progress
mod Conversions
mod Dataflows
mod Plugins
