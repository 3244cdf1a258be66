-- ===== src/Tests.antt =====
-- The theorems at concrete inputs, and runs of the model.
mod Ascii
mod Names
mod Queries
mod Schemas
mod Loaders
mod Sessions
mod Updates
mod Inserts
mod Functions
mod Paths
mod Callbacks
mod Destinations
mod Selects
