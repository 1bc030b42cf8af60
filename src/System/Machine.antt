-- ===== src/System/Machine.antt =====
-- The device as the driver's hardware: `readl` and `writel` reach `vnpu_mmio_read` and
-- `vnpu_mmio_write` as accesses of four bytes, at a virtual clock.
use virtual_silicon_validati.Base.{ℕ}
use virtual_silicon_validati.Base.Word.{u32}
use virtual_silicon_validati.Device.State.{VnpuState}
use virtual_silicon_validati.Device.Mmio.{mmio_read, mmio_write}
use virtual_silicon_validati.Device.Invariant.{IsValid, Step-IsValid}
use virtual_silicon_validati.Device.Steps.{read, write}
use virtual_silicon_validati.Driver.State.{Bus}

pub record Machine : Type 0 where
  pub dev : VnpuState
  pub clock : ℕ

abbrev pub device_bus : Bus
device_bus = record {
  Hw = Machine;
  read = λ m offset. let (val, dev) = mmio_read m.dev offset 4 in (u32 val, record m { dev = dev });
  write = λ m offset val. record m { dev = mmio_write m.clock m.dev offset val 4 };
}

pub read-IsValid :
    (m : Machine) (offset : ℕ) → IsValid m.dev → IsValid (device_bus.read m offset).1.dev
read-IsValid m offset v = Step-IsValid (read m.dev offset 4) v

pub write-IsValid :
    (m : Machine) (offset val : ℕ) → IsValid m.dev → IsValid (device_bus.write m offset val).dev
write-IsValid m offset val v = Step-IsValid (write m.clock m.dev offset val 4) v
