-- ===== src/Command.antt =====
-- internal/cmdutil/cmd.go: command lines, their arguments and their pipes.
pub mod Defs
pub mod Arguments
pub mod Pipes
pub mod Samples
