-- ===== src/Tests.antt =====
-- Concrete inputs: each property's theorem at an input where its hypotheses hold, and runs of the
-- definitions.
mod CatalogRules
mod Component
mod Emitted
mod Generated
mod HubAccess
mod Identification
mod Names
mod ReadOnly
mod Schedules
