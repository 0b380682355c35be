-- ===== src/Tests.antt =====
-- Data of one conversation, and the theorems applied to it.
pub mod Data
mod Dispatch
mod Actions
mod Policies
mod Routing
mod Ingestion
mod Retries
mod Approvals
mod Closing
