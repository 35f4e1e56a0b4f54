-- ===== src/Server.antt =====
-- The configuration and the life of the program (backend/internal/platform/config.go: LoadConfig;
-- backend/cmd/server/main.go: run). What the environment, the parsers and the started parts answer
-- is a parameter.
pub mod Config
pub mod Life
pub mod Usable
pub mod Serving
pub mod Examples
