-- ===== src/Schedules.antt =====
-- src/services/schedule-manager.ts, src/services/handlers/schedule-handler.ts and
-- src/services/schedule-executor.ts: tasks, pipelines and loops that are started at set times.
pub mod Schedule
pub mod Cron
pub mod Store
pub mod Timing
pub mod Triggers
pub mod Dispatch
pub mod Handler
pub mod Executor
pub mod Manager
pub mod Creation
pub mod Rows
pub mod Stable
pub mod Kept
pub mod Histories
pub mod Limits
pub mod Ended
pub mod Tracking
pub mod Overlaps
pub mod Untouched
pub mod Due
pub mod Runs
pub mod Begun
pub mod Executed
