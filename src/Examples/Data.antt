-- ===== src/Examples/Data.antt =====
-- Devices, requests, drivers and a kernel for the examples.
use virtual_silicon_validati.Base.Codes.{codes, same}
use virtual_silicon_validati.Ctl.JsonLaws.{Gaps, IsGaps}
use virtual_silicon_validati.Base.{
  ℕ, ◌+◌, true, List, [], ◌∷◌, Option, none, some, leb, if◌then◌else◌, arith,
}
use virtual_silicon_validati.Base.Int.{ℤ, pos, negsuc}
use virtual_silicon_validati.Device.State.{VnpuState}
use virtual_silicon_validati.Device.Timer.{expire}
use virtual_silicon_validati.Device.Lifecycle.{zeroed}
use virtual_silicon_validati.Device.Invariant.{IsValid}
use virtual_silicon_validati.Driver.Uapi.{VnpuDotRequest}
use virtual_silicon_validati.Driver.State.{VnpuDevice, Kernel}
use virtual_silicon_validati.Driver.Hardware.{irq_handler}
use virtual_silicon_validati.Driver.Ioctl.{Copies}
use virtual_silicon_validati.Driver.Probe.{fresh}
use virtual_silicon_validati.System.Machine.{Machine, device_bus}

-- A device of revision B at rest, with a length of 16.
abbrev pub device_b : VnpuState
device_b = record zeroed { ops = record { revision = 2; capabilities = 0x7D; vec_len = 16 } }

pub device_b-IsValid : IsValid device_b
device_b-IsValid = ground arith

abbrev pub with_fault : ℕ → VnpuState
with_fault f = record device_b { fault_control = f }

-- An operation of eight elements under way: (1, 2, 3, 4, -1, 0, 0, 0) and eight times 2.
abbrev pub running : VnpuState
running = record device_b {
  status = 1;
  irq_enable = 3;
  input_a = 0x0403_0201 ∷ 0xFF ∷ 0 ∷ 0 ∷ [];
  input_b = 0x0202_0202 ∷ 0x0202_0202 ∷ 0 ∷ 0 ∷ [];
  dot_timer = some 100;
  ops = record { revision = 2; capabilities = 0x7D; vec_len = 8 };
}

pub running-IsValid : IsValid running
running-IsValid = ground arith

-- The same, ended, with the completion interrupt raised; and ended in an error.
abbrev pub finished : VnpuState
finished = record running {
  status = 2;
  irq_status = 1;
  irq_line = true;
  dot_timer = none;
  result = pos 18;
}

pub finished-IsValid : IsValid finished
finished-IsValid = ground arith

abbrev pub broken : VnpuState
broken = record running {
  status = 3;
  err_code = 3;
  irq_status = 2;
  irq_line = true;
  dot_timer = none;
}

pub broken-IsValid : IsValid broken
broken-IsValid = ground arith

abbrev pub machine : VnpuState → Machine
machine s = record { dev = s; clock = 0 }

abbrev pub eight : VnpuDotRequest
eight = record {
  abi_version = 1;
  job_id = 7;
  vector_length = 8;
  timeout_ms = 500;
  input_a = 0x0403_0201 ∷ 0xFF ∷ 0 ∷ 0 ∷ [];
  input_b = 0x0202_0202 ∷ 0x0202_0202 ∷ 0 ∷ 0 ∷ [];
  result = pos 0;
  driver_status = 0;
  device_error = 0;
}

abbrev pub sixteen : VnpuDotRequest
sixteen = record eight {
  vector_length = 16;
  input_a = 0x0403_0201 ∷ 0xFF ∷ 0 ∷ 0x0100_0000 ∷ [];
  input_b = 0x0202_0202 ∷ 0x0202_0202 ∷ 5 ∷ 0x8000_0000 ∷ [];
}

abbrev pub driver_b : VnpuDevice
driver_b = record fresh { device_revision = 2 }

abbrev pub good_copies : Copies
good_copies = record { from_ok = true; to_ok = true }

abbrev pub ones : List ℤ
ones = pos 1 ∷ pos 1 ∷ pos 1 ∷ pos 1 ∷ pos 1 ∷ pos 1 ∷ pos 1 ∷ pos 1 ∷ []

abbrev pub extremes : List ℤ
extremes = pos 127 ∷ negsuc 127 ∷ pos 0 ∷ negsuc 0 ∷ pos 5 ∷ negsuc 9 ∷ pos 64 ∷ negsuc 63 ∷ []

-- A wait that lets the timer expire and serves the interrupt.
abbrev pub serve : VnpuDevice → Machine → ℕ × VnpuDevice × Machine
serve d m =
    let m' : Machine = record m { dev = expire m.dev } in
    let (r, d', served) = irq_handler device_bus d m' in
    if m'.dev.irq_line then (1, record d' { irq_raised = 0 }, served) else (0, d, m')

abbrev pub wait : VnpuDevice → Machine → ℕ → ℕ × VnpuDevice × Machine
wait d m t = elim m.dev.dot_timer [
  | none ↦ (0, d, m)
  | some deadline ↦ if leb deadline (m.clock + t) then serve d m else (0, d, m)
]

-- A kernel with a jiffy of a millisecond.
abbrev pub simulated : Kernel Machine
simulated = record { msecs_to_jiffies = λ t. t; wait_for_completion_timeout = wait }

-- Blanks of an input file.
abbrev pub gaps : Gaps
gaps = record { name = 10 ∷ 9 ∷ []; colon = 32 ∷ []; comma = 32 ∷ []; close = 10 ∷ [] }

pub gaps-IsGaps : IsGaps gaps
gaps-IsGaps = record {
  name_gap = ground arith;
  colon_gap = ground arith;
  comma_gap = ground arith;
  close_gap = ground arith;
}

-- The one path that opens the node of the driver; ENOENT for the others.
abbrev pub nodes : List ℕ → Option ℕ
nodes path = if same path (codes "/dev/vnpu0") then none else some 2
