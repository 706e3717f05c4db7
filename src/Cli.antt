-- ===== src/Cli.antt =====
-- src/main.rs: the commands of the program, without their output.
pub mod Targets
pub mod Unmatched
pub mod Kube
pub mod Waits
pub mod Strict
pub mod Process
pub mod Texts
