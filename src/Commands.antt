-- ===== src/Commands.antt =====
-- The commands: cmd/*/main.go, with internal/db/db.go and the functions that only put parts together.
pub mod Network
pub mod Migration
