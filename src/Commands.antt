-- ===== src/Commands.antt =====
-- The command channel of bridge/agent.py.
pub mod Channel
pub mod Admission
pub mod Verdicts
pub mod Dispatch
pub mod Conclusion
pub mod Steps
pub mod Outcomes
pub mod Bounded
pub mod Flights
pub mod Single
pub mod BoundedWork
pub mod AtMostOnce
pub mod Claims
