-- ===== src/Examples.antt =====
-- Concrete inputs: a host, an environment and tables, and the theorems at them.
mod Codec
mod World
mod DevRouter
mod Budget
mod Config
mod Tasks
mod Worker
mod Jobs
mod Chat
mod Outbox
mod Agent
