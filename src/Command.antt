-- ===== src/Command.antt =====
-- cmd/blockstoreingester/main.go: the program.
pub mod Arguments
pub mod Environment
pub mod Start
