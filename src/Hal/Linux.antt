-- ===== src/Hal/Linux.antt =====
-- `LinuxVnpuDevice` of vnpu-hal.cpp, over the system calls that it makes.
use virtual_silicon_validati.Base.{
  ℕ, List, Option, none, some, Bool, true, false, ◌==◌, if◌then◌else◌, length,
}
use virtual_silicon_validati.Base.Int.{ℤ, pos, negsuc}
use virtual_silicon_validati.Base.Word.{of_i32, to_i32}
use virtual_silicon_validati.Driver.Uapi.{VnpuInfo, VnpuDotRequest, VnpuFaultRequest, VnpuStatus}
use virtual_silicon_validati.Hal.Types.{
  DeviceInfo, DotProductResult, FaultType, fault_bits, DeviceStats, device_error, validation_error,
  system_error, Exception, vnpu_error, std_system_error, Result, ok, throws, validate,
}
use virtual_silicon_validati.Hal.Pack.{pack_int8_input}

-- What `ioctl` gives back: its value, `errno` after it, the structure that its argument points to,
-- and the system after.
pub record Reply (State A : Type 0) : Type 0 where
  pub ret : ℤ
  pub errno : ℕ
  pub arg : A
  pub state : State

-- The system calls on `/dev/vnpu0`. An `ioctl` may never return, which is `none`.
pub record Syscalls : Type 1 where
  pub State : Type 0
  pub open_vnpu : List ℕ → State → Reply State (Unit {0})
  pub close_vnpu : State → State
  pub get_info : VnpuInfo → State → Option (Reply State VnpuInfo)
  pub run_dot : VnpuDotRequest → State → Option (Reply State VnpuDotRequest)
  pub reset : State → Option (Reply State (Unit {0}))
  pub set_fault : VnpuFaultRequest → State → Option (Reply State VnpuFaultRequest)
  pub get_stat : VnpuStatus → State → Option (Reply State VnpuStatus)

abbrev pub negative : ℤ → Bool
negative (pos n) = false
negative (negsuc n) = true

-- The request of `vnpu_run_dot`, from one that is zeroed.
unfoldable pub request : List ℤ → List ℤ → ℤ → VnpuDotRequest
request input_a input_b timeout = record {
  abi_version = 1;
  job_id = 0;
  vector_length = length input_a;
  timeout_ms = of_i32 timeout;
  input_a = pack_int8_input input_a;
  input_b = pack_int8_input input_b;
  result = pos 0;
  driver_status = 0;
  device_error = 0;
}

-- The exception for an `errno` and the driver status of the request, where there is one.
unfoldable pub run_dot_error : ℕ → ℕ → Option Exception
run_dot_error errno status =
    if errno == 110
    then some (vnpu_error device_error "Device time out" errno 0)
    else if errno == 14
    then some (vnpu_error system_error "failed to copy struct" errno 0)
    else if errno == 22
    then (if status == 3
        then some (vnpu_error validation_error "invalid revision version" errno 0)
        else if status == 4
        then some (vnpu_error validation_error "invalid vector length" errno 0)
        else if status == 5
        then some (vnpu_error validation_error "invalide timeout count" errno 0)
        else none)
    else if errno == 5
    then some (vnpu_error system_error "Device force error" errno 0)
    else none

abbrev pub dot_result : VnpuDotRequest → DotProductResult
dot_result dot = record {
  result = dot.result;
  device_error = to_i32 dot.device_error;
  status = dot.driver_status;
}

module _ (sys : Syscalls) where
  open sys use {State}

  -- The constructor.
  unfoldable pub construct : List ℕ → State → Result (Unit {0}) × State
  construct path s =
      let r = sys.open_vnpu path s in
      (
        if negative r.ret then throws (std_system_error r.errno "open /dev/vnpu0") else ok tt,
        r.state,
      )

  -- The destructor; the file is open, since otherwise the constructor has thrown.
  unfoldable pub destruct : State → State
  destruct s = sys.close_vnpu s

  unfoldable pub vnpu_get_info : State → Option (Result DeviceInfo × State)
  vnpu_get_info s = elim (sys.get_info (record { abi_version = 0; device_id = 0 }) s) [
    | none ↦ none
    | some r ↦ some (
      if negative r.ret
          then throws (vnpu_error system_error "unspecified error : get info" r.errno 0)
          else ok (record {
            abi_version = r.arg.abi_version;
            device_id = r.arg.device_id;
            revision = 0;
            capabilities = 0;
          }),
      r.state,
    )
  ]

  -- What `vnpu_run_dot` makes of the answer.
  unfoldable pub run_dot_answer : Reply State VnpuDotRequest → Result DotProductResult
  run_dot_answer r =
      if negative r.ret
      then (elim (run_dot_error r.errno r.arg.driver_status) [
        | some e ↦ throws e
        | none ↦ ok (dot_result r.arg)
      ])
      else ok (dot_result r.arg)

  unfoldable pub vnpu_run_dot :
      List ℤ → List ℤ → ℤ → State → Option (Result DotProductResult × State)
  vnpu_run_dot input_a input_b timeout s = elim (validate input_a input_b timeout) [
    | some message ↦ some (throws (vnpu_error validation_error message 0 0), s)
    | none ↦ elim (sys.run_dot (request input_a input_b timeout) s) [
      | none ↦ none
      | some r ↦ some (run_dot_answer r, r.state)
    ]
  ]

  unfoldable pub vnpu_reset : State → Option (Result (Unit {0}) × State)
  vnpu_reset s = elim (sys.reset s) [
    | none ↦ none
    | some r ↦ some (
      if negative r.ret
          then throws (vnpu_error system_error "unspecified error : reset" r.errno 0)
          else ok tt,
      r.state,
    )
  ]

  unfoldable pub vnpu_set_fault : FaultType → State → Option (Result (Unit {0}) × State)
  vnpu_set_fault type s =
      elim (sys.set_fault (record { abi_version = 1; fault_mask = fault_bits type }) s) [
        | none ↦ none
        | some r ↦ some (
          if negative r.ret
              then (if r.errno == 14
                  then throws (vnpu_error system_error "failed to copy struct" r.errno 0)
                  else if r.errno == 22
                  then throws (
                      vnpu_error validation_error "invalid fault mask: multi bit or invalid bit"
                        r.errno 0)
                  else ok tt)
              else ok tt,
          r.state,
        )
      ]

  unfoldable pub vnpu_get_stats : State → Option (Result DeviceStats × State)
  vnpu_get_stats s =
      elim (sys.get_stat
        (record {
          abi_version = 0;
          submitted = 0;
          completed = 0;
          timed_out = 0;
          device_error = 0;
          resets = 0;
        })
        s) [
          | none ↦ none
          | some r ↦ some (
            if negative r.ret
                then (if r.errno == 14
                    then throws (vnpu_error system_error "failed to copy struct" r.errno 0)
                    else throws (vnpu_error system_error "unspecified error" r.errno 0))
                else ok (record {
                  submitted = r.arg.submitted;
                  completed = r.arg.completed;
                  timed_out = r.arg.timed_out;
                  device_error = r.arg.device_error;
                  resets = r.arg.resets;
                }),
            r.state,
          )
        ]
