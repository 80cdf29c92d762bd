-- ===== src/Tests/Ingest.antt =====
-- A message that the logs and the browser report, fifteen seconds apart.
use pdd_bridge_agent.Prelude.{false, [], String}
use pdd_bridge_agent.Ingest.{Message, Ingest}

abbrev message : String → Message
message id = record { role = "user"; is_diagnostic = false; platform_message_id = ""; msg_id = id }

abbrev empty : Ingest
empty = record { seen = []; pruned_at = 0; dropped = 0; last_drop_at = 0 }
