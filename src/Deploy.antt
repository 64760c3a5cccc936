-- ===== src/Deploy.antt =====
-- The self-deploy feature: the primary's job, state and lock files, and the sidekick that swaps the
-- running container (biz/self_deploy*.go and cmd/deploy_agent).
pub mod Job
pub mod StateWriter
pub mod Lock
pub mod Primary
pub mod Health
pub mod Lifecycle
pub mod Agent
pub mod Tests
