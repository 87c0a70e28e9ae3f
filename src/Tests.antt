-- ===== src/Tests.antt =====
-- Runs of the theorems on concrete buckets, tenants and options.
mod Data
mod Buckets
mod Tenants
mod Marks
mod Prefixes
mod Options
mod Ranges
mod Caches
mod Service
mod Process
mod Arguments
mod Environment
mod Migration
mod Runs
mod CachedNames
mod Storage
mod Mock
mod StoredMarks
