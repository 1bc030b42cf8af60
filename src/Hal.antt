-- ===== src/Hal.antt =====
-- The C++ hardware abstraction layer, cpp-hal/src/vnpu-hal.cpp and
-- cpp-hal/include/vnpu/vnpu-hal.hpp.
pub mod Types
pub mod Pack
pub mod Interface
pub mod Mock
pub mod Linux
pub mod PackLaws
pub mod MockLaws
pub mod LinuxLaws
