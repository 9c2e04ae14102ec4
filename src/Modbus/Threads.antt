-- ===== src/Modbus/Threads.antt =====
-- The three threads of modbusslave_main.c around one `g_modbus`: the loop of `main`, thread_adc, and
-- the Modbus thread, from whose eMBPoll FreeModBus calls the register callbacks. A step is
-- a lock, what a thread does up to its unlock, or, for thread_adc, one channel of a sample; the threads
-- take turns in any order. Which requests arrive and which samples the ADC driver delivers is left
-- open; a sample is four counts whose conversion fits `int`.
pub mod Invariant
pub mod Preserve
pub mod Snapshot
pub mod Release
pub mod Brief
pub mod Range
pub mod Start
pub mod Progress
pub mod Since
pub mod Linear
use railab_nuttx_code.Prelude.{
  ℕ, suc, ◌+◌, ◌<◌, ◌≡◌, true, false, Bool, List, [], ◌∷◌, ℤ, u16, Outcome, done, if◌then◌else◌,
  ◌==◌,
}
use railab_nuttx_code.Modbus.State.{ModbusInput, ModbusState, adc_samples, locked, unlocked}
use railab_nuttx_code.Modbus.Callbacks.{
  MbRegisterMode, Reply, input_locked, holding_locked, unlock_reply,
}
use railab_nuttx_code.Modbus.Adc.{adc_reset_stats, serve_reset, store_sample}
use railab_nuttx_code.Modbus.Adc.Statistics.{IsSample}

-- The requests whose callbacks take the mutex: buffer, address and number of registers.
pub data Request : Type 0 where
  input : List ℕ → ℕ → ℕ → Request
  holding : List ℕ → ℕ → ℕ → MbRegisterMode → Request

-- Where each thread stands.
pub data MainPc : Type 0 where
  asleep : MainPc
  counting : MainPc

pub data AdcPc : Type 0 where
  opening : AdcPc  -- before the device is open, or stopped since it does not open
  starting : AdcPc  -- in the first critical section
  waiting : AdcPc  -- from the sleep to the end of the read
  serving : List ℤ → AdcPc  -- the mutex taken, with a sample
  storing : List ℤ → ℕ → AdcPc  -- in the loop over the channels

pub data ModbusPc : Type 0 where
  polling : ModbusPc
  answering : Request → ModbusPc

-- `history` is no data of the program: the samples since the last reset that were stored in full,
-- the newest first.
pub record System : Type 0 where
  pub device : ModbusState
  pub main : MainPc
  pub adc : AdcPc
  pub modbus : ModbusPc
  pub history : List (List ℤ)

-- The history after a reset request was served.
abbrev pub kept : ModbusState → List (List ℤ) → List (List ℤ)
kept s history = if s.holding.rst_stats == 0 then history else []

module _ (htobe16 be16toh : ℕ → ℕ) where
  -- A callback between its lock and its unlock.
  abbrev pub answer : Request → ModbusState → Outcome Reply
  answer (input buffer address nregs) s = input_locked htobe16 s buffer address nregs
  answer (holding buffer address nregs mode) s =
      holding_locked htobe16 be16toh s buffer address nregs mode

  pub data Step (s : System) : System → Type 0 where
    main_lock :
        s.main ≡ asleep
        → s.device.lock ≡ false
        → Step s (record s { device = locked s.device; main = counting })
    main_count :
        s.main ≡ counting
        → Step s (record s {
          device = unlocked (record s.device {
            input = record s.device.input { cntr = u16 (s.device.input.cntr + 1) };
          });
          main = asleep;
        })
    modbus_lock :
        (q : Request)
        → s.modbus ≡ polling
        → s.device.lock ≡ false
        → Step s (record s { device = locked s.device; modbus = answering q })
    modbus_reply :
        (q : Request) (r : Reply)
        → s.modbus ≡ answering q
        → answer q s.device ≡ done r
        → Step s (record s { device = unlocked r.state; modbus = polling })
    adc_open :
        s.adc ≡ opening
        → s.device.lock ≡ false
        → Step s (record s { device = locked s.device; adc = starting })
    adc_start :
        (r : ModbusInput)
        → s.adc ≡ starting
        → adc_reset_stats s.device.input ≡ done r
        → Step s (record s {
          device = unlocked (record s.device { input = record r { status = 1 } });
          adc = waiting;
          history = [];
        })
    adc_lock :
        (sample : List ℤ)
        → s.adc ≡ waiting
        → s.device.lock ≡ false
        → IsSample sample
        → Step s (record s { device = locked s.device; adc = serving sample })
    adc_serve :
        (sample : List ℤ) (t : ModbusState)
        → s.adc ≡ serving sample
        → serve_reset s.device ≡ done t
        → Step s
            (record s { device = t; adc = storing sample 0; history = kept s.device s.history })
    adc_store :
        (sample : List ℤ) (i : ℕ) (r : ModbusInput)
        → s.adc ≡ storing sample i
        → i < adc_samples
        → store_sample sample i s.device.input ≡ done r
        → Step s (record s { device = record s.device { input = r }; adc = storing sample (suc i) })
    adc_unlock :
        (sample : List ℤ)
        → s.adc ≡ storing sample adc_samples
        → Step s
            (record s { device = unlocked s.device; adc = waiting; history = sample ∷ s.history })

  -- What the threads can reach from a device as `main` leaves it when it has created them.
  pub data Reach (start : ModbusState) : System → Type 0 where
    created :
        Reach start
          (record { device = start; main = asleep; adc = opening; modbus = polling; history = [] })
    later : {s t : System} → Reach start s → Step s t → Reach start t
