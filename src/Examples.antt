-- ===== src/Examples.antt =====
-- Runs of the development on concrete inputs.
mod Data
mod Device
mod Driver
mod System
mod Hal
mod Ctl
mod Cli
mod Agreement
