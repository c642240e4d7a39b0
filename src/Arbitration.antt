-- ===== src/Arbitration.antt =====
-- mimirheim/core/control_arbitration.py: the choice of one closed-loop enforcer for each step.
-- `Score` ranks the eligible devices of a step, `Choose` is the selection with hysteresis and
-- dwell, and `Assign` writes the flags of a whole schedule.
pub mod Score
pub mod Choose
pub mod Assign
pub mod Best
pub mod Sound
pub mod Dwell
pub mod Schedule
pub mod Flags
pub mod Enforcer
pub mod LoadBalance
mod Tests
