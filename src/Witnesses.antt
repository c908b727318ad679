-- ===== src/Witnesses.antt =====
-- Tests of the definitions, and for each theorem an input at which it is applied.
mod Meta
mod Conditions
mod Packages
mod Config
mod Errors
mod Predicates
mod Resources
mod Database
mod Cluster
