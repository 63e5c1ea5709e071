-- ===== src/Cli.antt =====
-- src/gatebroker/cli.py: the sign-in state that the command line keeps in the credential store.
pub mod Vault
pub mod Chunks
pub mod Manifest
pub mod Lexer
pub mod Journal
pub mod Cache
pub mod Logout
pub mod Agents
