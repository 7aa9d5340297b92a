-- ===== src/Runtime/Answer.antt =====
-- internal/orchestrator/runtime.go: theorems about cancelActiveDelegations and completeAnswer.
pub mod Silenced
use alt_tui.Projection.{Projection}
use alt_tui.Runtime.Marks
