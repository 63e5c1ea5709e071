-- ===== src/Launch.antt =====
-- What an agent is started with: its command line and its environment. src/gatebroker/copilot_launch.py,
-- codex_launch.py and claude_launch.py, and `_run_with_broker_environment` of cli.py, up to the
-- start of the process. The catalog that Codex reads is a file and is not modelled.
pub mod Environment
pub mod Claude
pub mod Codex
pub mod Run
