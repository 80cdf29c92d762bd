-- ===== src/Hub.antt =====
-- The hub of bridge/hub_state.py: tokens and agent identities, the agents' presence, and the command
-- queues of the mode without a command store.
pub mod Tokens
pub mod Channels
pub mod Identity
pub mod Queue
pub mod Delivery
