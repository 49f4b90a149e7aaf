-- ===== src/Auth.antt =====
-- internal/auth: users, the repository, the service, the gRPC handler and the middleware.
pub mod Types
pub mod Repository
pub mod Gorm
pub mod MemoryRepository
pub mod Libraries
pub mod Service
pub mod Status
pub mod Handler
pub mod Middleware
pub mod Wiring
