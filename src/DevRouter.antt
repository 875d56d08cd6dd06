-- ===== src/DevRouter.antt =====
-- internal/devrouter: the jobs that advance a pipeline by one stage, one file each.
pub mod Ingress
pub mod Planning
pub mod FanOut
pub mod Story
pub mod Validation
pub mod Runner
pub mod Intake
pub mod Progress
