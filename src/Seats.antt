-- ===== src/Seats.antt =====
-- Which seat a message belongs to: the spellings of an account (bridge/parser.py,
-- bridge/seat_scope.py), and the scope that lets only this machine's seats through.
pub mod Account
pub mod RoundTrip
pub mod Scope
pub mod Members
pub mod Verdicts
pub mod Counters
