-- ===== src/WorldRouter.antt =====
-- src/zion_terminal/world_router.py: requests go to the real or to the synthetic world.
mod Handlers
pub mod Isolation
unfoldable pub use Handlers.*
