-- ===== src/Ctl.antt =====
-- The command-line tool, vnpuctl.cpp: how it finds its command and its options,
-- and how it reads the lists of numbers of its input.
pub mod Text
pub mod Args
pub mod ArgsLaws
pub mod Parse
pub mod ParseLaws
pub mod Spelling
pub mod Decimal
pub mod Format
pub mod Json
pub mod JsonLaws
pub mod RoundTrip
pub mod Answers
pub mod Faults
pub mod Output
pub mod Main
pub mod MainLaws
pub mod Inputs
