-- ===== src/Tests.antt =====
-- Runs of the modelled code on small inputs, and the theorems at inputs that meet their hypotheses.
mod GraphTests
mod DependencyTests
mod ContainerTests
mod QueueTests
mod PriorityTests
mod HandlerTests
mod LoopTests
mod BusTests
mod RetryTests
mod ScheduleTests
