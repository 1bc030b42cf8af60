-- ===== src/Device/Steps.antt =====
-- What can happen to a realized device: any access by the guest, at any time, and the expiry of its
-- timer.
use virtual_silicon_validati.Base.{ℕ, ◌≤◌, ◌≡◌, some}
use virtual_silicon_validati.Device.State.{VnpuState}
use virtual_silicon_validati.Device.Mmio.{mmio_read, mmio_write}
use virtual_silicon_validati.Device.Timer.{expire}
use virtual_silicon_validati.Device.Lifecycle.{realize}

pub data Step : VnpuState → VnpuState → Type 0 where
  read : (s : VnpuState) (addr size : ℕ) → Step s (mmio_read s addr size).1
  write : (now : ℕ) (s : VnpuState) (addr val size : ℕ) → Step s (mmio_write now s addr val size)
  fire :
      (now deadline : ℕ) (s : VnpuState)
      → s.dot_timer ≡ some deadline
      → deadline ≤ now
      → Step s (expire s)

pub data Reach : VnpuState → Type 0 where
  here : Reach realize
  next : {s t : VnpuState} → Reach s → Step s t → Reach t

-- A removed device has no registers that can be reached. Its timer alone could still run it.
pub data Expiry : VnpuState → VnpuState → Type 0 where
  expires :
      (now deadline : ℕ) (s : VnpuState)
      → s.dot_timer ≡ some deadline
      → deadline ≤ now
      → Expiry s (expire s)
