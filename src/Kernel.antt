-- ===== src/Kernel.antt =====
-- The game-agnostic kernel: include/ and src/.
pub mod Message
pub mod Command
pub mod RateLimiter
pub mod EventDispatcher
pub mod Gateway
