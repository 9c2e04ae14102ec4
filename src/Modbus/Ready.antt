-- ===== src/Modbus/Ready.antt =====
-- The invariant of `g_modbus` around its mutex.
use railab_nuttx_code.Prelude.{◌≡◌, refl, false, done, arith}
use railab_nuttx_code.Modbus.State.{
  ModbusState, IsValid, mutex_lock, mutex_unlock, locked, unlocked,
}

-- The invariant with the mutex free: what holds of the device between two accesses.
pub record IsReady (s : ModbusState) : Type 0 where
  pub valid : IsValid s
  pub free : s.lock ≡ false

pub unlock-IsReady : (s : ModbusState) → IsValid s → IsReady (mutex_unlock s)
unlock-IsReady s v = record {
  valid = record {
    status = v.status;
    cntr = v.cntr;
    interval = v.interval;
    rst_stats = v.rst_stats;
    shaped = v.shaped;
  };
  free = refl;
}

pub mutex_lock-IsValid :
    (s : ModbusState) {t : ModbusState} → mutex_lock s ≡ done t → IsValid s → IsValid t
mutex_lock-IsValid s {t} e v =
    let ei : s.input ≡ t.input = ground arith in
    let eh : s.holding ≡ t.holding = ground arith in
    record {
      status = rw (← ei) v.status;
      cntr = rw (← ei) v.cntr;
      interval = rw (← eh) v.interval;
      rst_stats = rw (← eh) v.rst_stats;
      shaped = rw (← ei) v.shaped;
    }

pub mutex_lock-input :
    (s : ModbusState) {t : ModbusState} → mutex_lock s ≡ done t → t.input ≡ s.input
mutex_lock-input s e = ground arith

-- A change of the mutex alone.
pub relock-IsValid : (s : ModbusState) → IsValid s → IsValid (locked s) × IsValid (unlocked s)
relock-IsValid s v = (
  record {
    status = v.status;
    cntr = v.cntr;
    interval = v.interval;
    rst_stats = v.rst_stats;
    shaped = v.shaped;
  },
  record {
    status = v.status;
    cntr = v.cntr;
    interval = v.interval;
    rst_stats = v.rst_stats;
    shaped = v.shaped;
  },
)
