-- ===== src/Device/Lifecycle.antt =====
-- `vnpu_register_init`, and `pci_vnpu_realize` and `pci_vnpu_uninit` as far as the device's own state
-- goes.
use virtual_silicon_validati.Base.{ℕ, false, List, [], ◌∷◌, none, ◌==◌, if◌then◌else◌}
use virtual_silicon_validati.Base.Int.{pos}
use virtual_silicon_validati.Device.State.{
  VnpuState, status_idle, revision_a, revision_b, cap_a, cap_b,
}

-- `memset` of four words.
abbrev pub zero_words : List ℕ
zero_words = 0 ∷ 0 ∷ 0 ∷ 0 ∷ []

unfoldable pub clear_registers : VnpuState → VnpuState
clear_registers s = record s {
  control = 0;
  status = status_idle;
  irq_status = 0;
  irq_enable = 0;
  err_code = 0;
  result = pos 0;
  fault_control = 0;
  job_ib = 0;
  input_a = zero_words;
  input_b = zero_words;
}

unfoldable pub register_init : VnpuState → ℕ → VnpuState
unfolding clear_registers
register_init s version =
    if version == revision_a
    then record (clear_registers s) {
      ops = record { capabilities = cap_a; revision = revision_a; vec_len = 8 };
    }
    else if version == revision_b
    then record (clear_registers s) {
      ops = record { capabilities = cap_b; revision = revision_b; vec_len = 16 };
    }
    else s

-- QOM gives the instance zeroed, and so does `g_new0` the `ops`; no timer is pending and the
-- interrupt pin is low.
abbrev pub zeroed : VnpuState
zeroed = record {
  status = 0;
  err_code = 0;
  input_a = zero_words;
  input_b = zero_words;
  result = pos 0;
  control = 0;
  job_ib = 0;
  irq_status = 0;
  irq_enable = 0;
  fault_control = 0;
  dot_timer = none;
  irq_line = false;
  ops = record { revision = 0; capabilities = 0; vec_len = 0 };
}

unfoldable pub realize : VnpuState
unfolding register_init
realize = register_init zeroed revision_b

-- `pci_vnpu_uninit`: `timer_del`. The `ops` are freed, and stand here as they were.
unfoldable pub uninit : VnpuState → VnpuState
uninit s = record s { dot_timer = none }
