-- ===== src/Modbus/State.antt =====
-- The data of modbusslave_main.c: the register structures, the device state behind its mutex, and
-- the structures seen through a `uint16_t *`.
use railab_nuttx_code.Prelude.{
  ℕ, Bool, true, false, List, [], ◌∷◌, ◌++◌, map, ℤ, pos, u16_of_ℤ, replicate, length, Outcome,
  done, blocked, if◌then◌else◌, ◌≡◌, ◌<◌, ◌^◌,
}

-- ADC_SAMPLES, the register map and the defaults.
abbrev pub adc_samples : ℕ
adc_samples = 4

abbrev pub modbus_reg_input_start : ℕ
modbus_reg_input_start = 1

abbrev pub modbus_reg_input_nregs : ℕ
modbus_reg_input_nregs = 18

abbrev pub modbus_reg_holding_start : ℕ
modbus_reg_holding_start = 31

abbrev pub modbus_reg_holding_nregs : ℕ
modbus_reg_holding_nregs = 2

abbrev pub interval_default_us : ℕ
interval_default_us = 10000

abbrev pub ema_alpha_shift : ℕ
ema_alpha_shift = 2

-- struct modbus_input_s: two `uint16_t` and four arrays of `int16_t`.
pub record ModbusInput : Type 0 where
  pub status : ℕ
  pub cntr : ℕ
  pub now : List ℤ
  pub min : List ℤ
  pub max : List ℤ
  pub avg : List ℤ

-- struct modbus_holding_s: two `uint16_t`.
pub record ModbusHolding : Type 0 where
  pub interval : ℕ
  pub rst_stats : ℕ

-- struct modbus_state_s, the type of `g_modbus`. `lock` says whether the mutex is held.
pub record ModbusState : Type 0 where
  pub input : ModbusInput
  pub holding : ModbusHolding
  pub lock : Bool

-- A change of the mutex alone.
abbrev pub locked : ModbusState → ModbusState
locked s = record s { lock = true }

abbrev pub unlocked : ModbusState → ModbusState
unlocked s = record s { lock = false }

-- pthread_mutex_lock and pthread_mutex_unlock on `g_modbus.lock`, a mutex that is not recursive.
abbrev pub mutex_lock : ModbusState → Outcome ModbusState
mutex_lock s = if s.lock then blocked else done (record s { lock = true })

abbrev pub mutex_unlock : ModbusState → ModbusState
mutex_unlock s = record s { lock = false }

-- `(uint16_t *)&g_modbus.input`: the packed structure as an array of words.
abbrev pub input_words : ModbusInput → List ℕ
input_words r =
    r.status ∷ r.cntr ∷ map u16_of_ℤ r.now
    ++ (map u16_of_ℤ r.min ++ (map u16_of_ℤ r.max ++ map u16_of_ℤ r.avg))

-- `(uint16_t *)&g_modbus.holding`, and the structure after its words were written.
abbrev pub holding_words : ModbusHolding → List ℕ
holding_words h = h.interval ∷ h.rst_stats ∷ []

abbrev pub holding_of_words : List ℕ → ModbusHolding → ModbusHolding
holding_of_words (a ∷ b ∷ ws) h = record { interval = a; rst_stats = b }
holding_of_words _ h = h

-- memset(&g_modbus, 0, sizeof(struct modbus_state_s)): the mutex is cleared too.
abbrev pub zero_state : ModbusState
zero_state = record {
  input = record {
    status = 0;
    cntr = 0;
    now = replicate adc_samples (pos 0);
    min = replicate adc_samples (pos 0);
    max = replicate adc_samples (pos 0);
    avg = replicate adc_samples (pos 0);
  };
  holding = record { interval = 0; rst_stats = 0 };
  lock = false;
}

-- The four arrays have their declared length.
pub record IsShaped (r : ModbusInput) : Type 0 where
  pub now : length r.now ≡ adc_samples
  pub min : length r.min ≡ adc_samples
  pub max : length r.max ≡ adc_samples
  pub avg : length r.avg ≡ adc_samples

-- The unsigned registers fit their words, and the arrays have their length.
pub record IsValid (s : ModbusState) : Type 0 where
  pub status : s.input.status < 2 ^ 16
  pub cntr : s.input.cntr < 2 ^ 16
  pub interval : s.holding.interval < 2 ^ 16
  pub rst_stats : s.holding.rst_stats < 2 ^ 16
  pub shaped : IsShaped s.input
