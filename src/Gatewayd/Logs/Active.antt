-- ===== src/Gatewayd/Logs/Active.antt =====
-- gatewayd/src/main.rs: the file that is being written stays, and the loop that deletes comes to its end.
use acp_a2a_gateway.Prelude.{String, ◌≡◌, ◌⊎◌}
use acp_a2a_gateway.Gatewayd.Logs.{LogFile, LogDir, gz_path}
use acp_a2a_gateway.Gatewayd.Logs.Pruning.{Has}

-- The file itself is in the directory, unless another one is compressed under its name.
abbrev pub Remains : LogFile → LogDir → Type 0
Remains f dir = Has f dir ⊎ ((name : String) × (gz_path name ≡ f.name))
