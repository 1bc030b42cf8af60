-- ===== src/System/Userspace.antt =====
-- The whole stack: the HAL's system calls served by the driver on the device.
use virtual_silicon_validati.Base.{
  ℕ, suc, ◌≡◌, List, Option, none, some, Bool, true, false, ltb, if◌then◌else◌, All, arith,
}
use virtual_silicon_validati.Base.Int.{ℤ, pos, negsuc}
use virtual_silicon_validati.Base.Word.{of_i32, to_i32}
use virtual_silicon_validati.Device.Product.{dot}
use virtual_silicon_validati.Driver.Uapi.{
  VnpuInfo, VnpuDotRequest, VnpuFaultRequest, VnpuStatus, Command, get_info, run_dot, reset,
  set_fault, get_stat,
}
use virtual_silicon_validati.Driver.State.{VnpuDevice, Kernel}
use virtual_silicon_validati.Driver.Ioctl.{Copies, Outcome, returned, blocked, clear_irqs, ioctl}
use virtual_silicon_validati.Driver.Requests.{refusal-none_iff, ioctl_run_dot_lem}
use virtual_silicon_validati.Hal.Types.{ok, IsI8}
use virtual_silicon_validati.Hal.Linux.{
  Syscalls, Reply, request, run_dot_error, run_dot_answer, vnpu_run_dot,
}
use virtual_silicon_validati.Hal.LinuxLaws.{request-IsRequest}
use virtual_silicon_validati.Hal.MockLaws.{IsArguments, validate-none_iff}
use virtual_silicon_validati.System.Machine.{Machine, device_bus}

-- The driver, its hardware and the `errno` of the process.
pub record Stack : Type 0 where
  pub drv : VnpuDevice
  pub hw : Machine
  pub errno : ℕ

-- The C library: a return from -4095 to -1 becomes -1 with `errno`; any other is cut to `int`.
abbrev pub is_errno : ℤ → Bool
is_errno (pos n) = false
is_errno (negsuc n) = ltb n 4095

abbrev pub errno_of : ℤ → ℕ
errno_of (pos n) = 0
errno_of (negsuc n) = suc n

abbrev pub libc_ret : ℤ → ℤ
libc_ret ret = if is_errno ret then negsuc 0 else to_i32 (of_i32 ret)

abbrev pub libc_errno : ℤ → ℕ → ℕ
libc_errno ret errno = if is_errno ret then errno_of ret else errno

-- The user's copies succeed.
abbrev pub mapped : Copies
mapped = record { from_ok = true; to_ok = true }

-- The structure after the call: what the driver stored, or what was there.
abbrev dot_after : Option Command → VnpuDotRequest → VnpuDotRequest
dot_after (some (run_dot dot')) dot = dot'
dot_after _ dot = dot

abbrev info_after : Option Command → VnpuInfo → VnpuInfo
info_after (some (get_info i')) i = i'
info_after _ i = i

abbrev fault_after : Option Command → VnpuFaultRequest → VnpuFaultRequest
fault_after (some (set_fault f')) f = f'
fault_after _ f = f

abbrev stat_after : Option Command → VnpuStatus → VnpuStatus
stat_after (some (get_stat s')) s = s'
stat_after _ s = s

abbrev answered : {A : Type 0} → Outcome Machine → ℕ → (Option Command → A) → Option (Reply Stack A)
answered o errno f = elim o [
  | blocked d hw ↦ none
  | returned ret user d hw ↦ some (record {
    ret = libc_ret ret;
    errno = libc_errno ret errno;
    arg = f user;
    state = record { drv = d; hw = hw; errno = libc_errno ret errno };
  })
]

-- `node` says which paths open the node of the driver's device: `none` for these, and the `errno` of
-- `open` for a path that cannot be opened. A path that opens another file is not in the model.
module _ (k : Kernel Machine) (node : List ℕ → Option ℕ) where
  abbrev call : Command → Stack → Outcome Machine
  call cmd s = ioctl device_bus k mapped cmd s.drv s.hw

  abbrev pub syscalls : Syscalls
  syscalls = record {
    State = Stack;
    open_vnpu = λ path s. elim (node path) [
      | none ↦ record { ret = pos 3; errno = s.errno; arg = tt; state = s }
      | some e ↦ record { ret = negsuc 0; errno = e; arg = tt; state = record s { errno = e } }
    ];
    close_vnpu = λ s. s;
    get_info = λ i s. answered (call (get_info i) s) s.errno (λ user. info_after user i);
    run_dot = λ dot s. answered (call (run_dot dot) s) s.errno (λ user. dot_after user dot);
    reset = λ s. answered (call reset s) s.errno (λ user. tt);
    set_fault = λ f s. answered (call (set_fault f) s) s.errno (λ user. fault_after user f);
    get_stat = λ i s. answered (call (get_stat i) s) s.errno (λ user. stat_after user i);
  }

  -- With the driver as it is, every dot product that passes the checks of the HAL comes back as a
  -- success with the result 0, whatever the inputs: the driver refuses the request with -EINVAL
  -- before it stores a driver status, the HAL finds no exception for that, and takes the zeroed
  -- request for the answer. The operation never ran, and the driver's mutex is left held.
  pub vnpu_run_dot-zero :
      (a b : List ℤ) (t : ℤ) (s : Stack)
      → IsArguments a b t
      → All IsI8 a
      → All IsI8 b
      → s.drv.mutex ≡ false
      → vnpu_run_dot syscalls a b t s
        ≡ some (
          ok (record { result = pos 0; device_error = pos 0; status = 0 }),
          record {
            drv = record s.drv { mutex = true; irq_raised = 0 };
            hw = clear_irqs device_bus s.hw;
            errno = 22;
          },
        )
  unfolding vnpu_run_dot run_dot_answer run_dot_error ioctl request
  vnpu_run_dot-zero a b t s h p q free =
      let e = (validate-none_iff a b t).1 h in
      let accepted =
        (refusal-none_iff s.drv (request a b t)).1
          (request-IsRequest s.drv.device_revision a b t h p q).0 in
      let refused = ioctl_run_dot_lem device_bus k mapped (request a b t) s.drv s.hw in
      ground (arith, e, accepted, refused)
