-- ===== src/Lib.antt =====
-- The virtual NPU: a PCI device for QEMU that computes dot products of signed bytes, its Linux
-- driver, and the C++ library (HAL) that applications call, with a mock of the device.
--
-- An application gives two vectors to the HAL, which packs them into a request and calls the
-- driver by `ioctl`. The driver checks the request, takes its mutex, writes the inputs, the length
-- and CONTROL_START to the device's registers and waits for a completion. The device runs the
-- operation when its timer expires 100 ms later, raises an interrupt, and the driver's handler
-- completes the wait. The driver reads the result and stores the request back to the user.
--
-- Base: numbers, lists, integers, bits and machine words that all parts share.
-- Device (qemu-device/src/vnpu.c): State holds `VnpuState` and `vnpu_update_irq`, Mmio
-- `vnpu_mmio_read` and `vnpu_mmio_write`, Dot `unpack_i8` and `vnpu_dot_product`, Timer
-- `vnpu_dot_timer`, Lifecycle `vnpu_register_init`, `pci_vnpu_realize` and `pci_vnpu_uninit`.
-- Product, Faults, Registers, Steps, Invariant, Machine and Protocol hold the theorems on them.
-- Driver (linux-driver/src/vnpu_drv.c, linux-driver/include/vnpu_uapi.h): Uapi has the structures
-- and commands, State `struct vnpu_device`, Hardware `device_error_handler`, `vnpu_hw_reset` and
-- `vnpu_irq_handler`, Probe `vnpu_probe`, Ioctl `vnpu_ioctl`. Requests and Traces hold the theorems.
-- System: the driver on the device (Machine, Reset), in every history (History), under the HAL
-- (Userspace, Calls, Agreement) and under vnpuctl (Cli, Cli/Dot, Cli/Control); and the mock against
-- the device (MockDevice).
-- Hal (cpp-hal/src/vnpu-hal.cpp, cpp-hal/include/vnpu/vnpu-hal.hpp): Types, Pack
-- `pack_int8_input`, Linux `LinuxVnpuDevice`, Mock `MockVnpuDevice`, Interface `IVnpuDevice`;
-- PackLaws, LinuxLaws and MockLaws hold the theorems.
-- Ctl (cpp-hal/src/vnpuctl.cpp): Args `find_command_index` and the options, Text `trim`, the
-- searches and `std::from_chars`, Parse `parse_int8_list`, Json `parse_json_int8_array`,
-- `parse_json_int` and `parse_run_dot_input_json`, Faults `parse_fault_type`, Decimal the printing of
-- numbers, Output all that is printed, and Main `main`. ArgsLaws, ParseLaws, Spelling, Format,
-- JsonLaws, RoundTrip, Inputs, Answers and MainLaws hold the theorems.
-- Examples: concrete runs.
--
-- The registers are natural numbers with `% 2 ^ 32` written out where the source stores a
-- `uint32_t`; `int32_t` arithmetic wraps. The interrupt pin is the level last given to
-- `pci_set_irq`, and the timer the deadline of a pending one in virtual milliseconds. The loops of
-- the device, the driver and the HAL have fixed bounds and are structural recursion on the rounds
-- left. The loop of `parse_int8_list` has a round for each byte of the text, and each round takes at
-- least a comma off it.
--
-- The driver stands over a parameter `Bus` for `readl` and `writel`, and over `Kernel` for
-- `msecs_to_jiffies` and `wait_for_completion_timeout`. The theorems on the driver alone hold for
-- every bus and kernel. System takes the device for the bus. The mutex is a flag; a call that finds
-- it held blocks, and nothing else runs inside of a call but the wait. The copies from and to the
-- user succeed or fail as a parameter says. The HAL stands over `Syscalls`, which Userspace fills with
-- the driver, with the C library's rule for `errno`. Which paths open the node of the driver, and with
-- what `errno` the others fail, is a parameter there too; a path that opens another file is left out.
--
-- `run_dot_locked` is RUN_DOT from the mutex on as a function of the local variable `vec_len`, and
-- `ioctl_run_dot` calls it with 0, as the source does. What stands behind its length test (the writes
-- of the inputs, `submit`, the wait and `finish_dot`) is translated, but no run of the driver comes
-- there. What the device does when it is programmed so is stated of a guest that writes the registers.
--
-- Texts are lists of bytes, and a position in a text is the rest of the text from there. vnpuctl
-- stands over `read_file`, the files that can be opened, and `strerror`, the C library's texts of
-- error numbers. Its `main` is a function of the arguments behind `argv[0]` to the exit code and the
-- bytes on the two output streams; an exception is a value of `Result`, and a call that waits for
-- ever gives `none`.
--
-- Not modelled: QEMU's type registration and the driver's removal and module registration, which only
-- call QEMU and the kernel; logging; the tests, scripts and build files.
pub mod Base
pub mod Device
pub mod Driver
pub mod System
pub mod Hal
pub mod Ctl
pub mod Examples
