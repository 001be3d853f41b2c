-- ===== src/Demo.antt =====
-- src/demo: the command line programs over the library. What they write to the standard error is left
-- out.
pub mod Samprobe
pub mod DumpConfig
pub mod DumpMerged
pub mod EnvExample
