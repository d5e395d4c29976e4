-- ===== src/Tests.antt =====
-- The theorems at concrete values, and runs of the definitions.
mod Sample
mod Containers
mod Controls
mod Lives
mod Reports
mod Requests
mod Runs
mod Console
mod Profiles
mod Deployments
