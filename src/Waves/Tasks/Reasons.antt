-- ===== src/Waves/Tasks/Reasons.antt =====
-- When a task is held back, and what it says of it.
use dc_ness.Base.{is_none, ◌≡◌, not, arith}
use dc_ness.Waves.Tasks.{ImplTask, serial_only, serial_reason, serial_cause}

-- A task has a machine-readable cause exactly when it is serial-only, and a reason for people
-- exactly then.
serial_cause-serial_only :
    (t : ImplTask)
    → (is_none (serial_cause t) ≡ not (serial_only t))
      × (is_none (serial_reason t) ≡ not (serial_only t))
unfolding serial_only serial_cause serial_reason
serial_cause-serial_only t = ground arith
