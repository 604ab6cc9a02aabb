-- ===== src/Tests.antt =====
-- Runs of the models on concrete data, and the theorems at such data.
mod Analyzer
mod Content
mod Bson
mod Framework
mod Session
mod Fixtures
mod Hooks
mod Merged
mod Sidecar
mod Properties
mod Paths
mod Render
mod Nan
mod Registry
mod Validators
mod Reports
