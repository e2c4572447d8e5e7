-- ===== src/Cli.antt =====
-- sapphire-cli/src/main.rs: the command `oracle`, which assembles a settlement from answers at a
-- prompt and runs the predicate of the validators over it, and the command `keygen`, which writes
-- the shares of a key generation. Printing leaves no trace here.
pub mod Console
pub mod Oracle
pub mod Keygen
pub mod Demo
