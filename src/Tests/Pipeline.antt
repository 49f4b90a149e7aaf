-- ===== src/Tests/Pipeline.antt =====
-- Builds of internal/pipeline/pipeline.go: runs, and the theorems applied to them.
pub mod Samples
mod Runs
mod Validation
mod Cluster
mod Disk
mod OldBuilds
pub mod Machine
mod NodeBuilds
mod SourceFiles
