-- ===== src/Ctl/Output.antt =====
-- What vnpuctl prints: the answers of its commands, and the error schema.
use virtual_silicon_validati.Base.{ℕ, List, ◌++◌, ◌==◌, if◌then◌else◌}
use virtual_silicon_validati.Base.Codes.{codes}
use virtual_silicon_validati.Hal.Types.{
  DeviceInfo, DotProductResult, DeviceStats, VnpuErrorType, validation_error, system_error,
  device_error, driver_error, internal_error, Exception, vnpu_error, std_system_error,
  std_runtime_error,
}
use virtual_silicon_validati.Ctl.Decimal.{show, show_nat}

-- `to_string` of vnpu-hal.hpp.
unfoldable pub to_string : VnpuErrorType → List ℕ
to_string validation_error = codes "validation_error"
to_string system_error = codes "system_error"
to_string device_error = codes "device_error"
to_string driver_error = codes "driver_error"
to_string internal_error = codes "internal_error"

unfoldable pub driver_status_to_string : ℕ → List ℕ
driver_status_to_string status =
    if status == 0
    then codes "ok"
    else if status == 1
    then codes "timeout"
    else if status == 2
    then codes "device_error"
    else if status == 3
    then codes "invalid_reivsion"
    else if status == 4
    then codes "invalid_vector_length"
    else if status == 5
    then codes "invalid timeout count"
    else if status == 6
    then codes "not allow multi bit in fualt mask"
    else if status == 7
    then codes "invalid fault mask"
    else codes "unknown"

-- The first lines of every answer, with the status.
abbrev pub opening : List ℕ → List ℕ → List ℕ
opening command status =
    codes "{\n\t\"command\": \"" ++ (command ++ (codes "\",\n\t\"status\": \"" ++ status))

unfoldable pub success_text : List ℕ → List ℕ
success_text command = opening command (codes "success\"\n}\n")

unfoldable pub info_text : List ℕ → DeviceInfo → List ℕ
info_text command info =
    opening command (codes "success\",\n\t\"abi_version\":")
    ++ (show_nat info.abi_version
        ++ (codes ",\n\t\"device_id\":"
            ++ (show_nat info.device_id
                ++ (codes ",\n\t\"revision\":"
                    ++ (show_nat info.revision
                        ++ (codes ",\n\t\"capabilities\":"
                            ++ (show_nat info.capabilities ++ codes "\n}\n")))))))

unfoldable pub dot_text : List ℕ → DotProductResult → List ℕ
dot_text command dot =
    opening command (codes "success\",\n\t\"result\":")
    ++ (show dot.result
        ++ (codes ",\n\t\"driver_status\": \""
            ++ (driver_status_to_string dot.status
                ++ (codes "\",\n\t\"device_error\":" ++ (show dot.device_error ++ codes "\n}\n")))))

unfoldable pub fault_text : List ℕ → List ℕ → List ℕ
fault_text command name =
    opening command (codes "success\",\n\t\"set_fault\": \"" ++ (name ++ codes "\"\n}\n"))

unfoldable pub stats_text : List ℕ → DeviceStats → List ℕ
stats_text command stats =
    opening command (codes "success\",\n\t\"submitted\":")
    ++ (show_nat stats.submitted
        ++ (codes ",\n\t\"completed\":"
            ++ (show_nat stats.completed
                ++ (codes ",\n\t\"timed_out\":"
                    ++ (show_nat stats.timed_out
                        ++ (codes ",\n\t\"device_error\":"
                            ++ (show_nat stats.device_error
                                ++ (codes ",\n\t\"resets\":"
                                    ++ (show_nat stats.resets ++ codes "\n}\n")))))))))

-- `print_error_schema`.
unfoldable pub error_schema : List ℕ → List ℕ → List ℕ → ℕ → ℕ → List ℕ
error_schema command error_type message errnum device_code =
    opening command (codes "error\",\n\t\"error_type\" : \"")
    ++ (error_type
        ++ (codes "\",\n\t\"message\" : \""
            ++ (message
                ++ (codes "\",\n\t\"errno\" :"
                    ++ (show_nat errnum
                        ++ (codes ",\n\t\"device_error\" :"
                            ++ (show_nat device_code ++ codes "\n}\n")))))))

-- `what()`. The text of an error number is the C library's.
unfoldable pub what : (ℕ → List ℕ) → Exception → List ℕ
what strerror (vnpu_error type message errnum device_code) = codes message
what strerror (std_system_error errnum message) = codes message ++ (codes ": " ++ strerror errnum)
what strerror (std_runtime_error message) = message

-- `print_internal_error_schema`.
unfoldable pub internal_error_schema : (ℕ → List ℕ) → List ℕ → Exception → List ℕ
internal_error_schema strerror command e =
    error_schema command (codes "internal_error") (what strerror e) 0 0

-- The two inner handlers: `print_vnpu_error_schema` for a `VnpuError`, else the internal one.
unfoldable pub error_text : (ℕ → List ℕ) → List ℕ → Exception → List ℕ
unfolding internal_error_schema
error_text strerror command (vnpu_error type message errnum device_code) =
    error_schema command (to_string type) (codes message) errnum device_code
error_text strerror command e = internal_error_schema strerror command e
