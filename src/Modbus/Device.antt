-- ===== src/Modbus/Device.antt =====
-- Start-up of modbusslave_main.c and the loop of its main thread: device_initialize,
-- modbus_initialize, thread_modbus up to its loop, and main. The results of the calls into NuttX and
-- FreeModBus are arguments.
pub mod Laws
use railab_nuttx_code.Prelude.{
  ℕ, ◌+◌, Bool, true, false, List, [], ◌∷◌, ◌++◌, ℤ, pos, negsuc, u16, Outcome, done, ◌>>=◌,
  if◌then◌else◌, ◌==◌,
}
use railab_nuttx_code.Modbus.State.{
  ModbusInput, ModbusHolding, ModbusState, mutex_lock, mutex_unlock, zero_state,
  interval_default_us,
}

-- `ret == 0`, and the test for MB_ENOERR of an error code that FreeModBus returns as a number.
abbrev pub is_zero : ℤ → Bool
is_zero (pos n) = n == 0
is_zero (negsuc n) = false

-- device_initialize: the data and the result, given what pthread_mutex_init returns.
unfoldable pub device_initialize : (mutex_init : ℤ) → ModbusState × ℤ
device_initialize mutex_init =
    let s = zero_state in
    if is_zero mutex_init
    then (
      record s {
        holding = record s.holding { interval = interval_default_us };
        input = record s.input { status = 0 };
      },
      pos 0,
    )
    else (s, mutex_init)

-- The calls into FreeModBus, eMBInit with its slave address.
pub data MbCall : Type 0 where
  mb_init : ℕ → MbCall
  mb_enable : MbCall

-- modbus_initialize: the calls that it makes and its result.
unfoldable pub modbus_initialize : (modbus_id : ℕ) (mb_init_ret mb_enable_ret : ℤ) → List MbCall × ℤ
modbus_initialize modbus_id mb_init_ret mb_enable_ret =
    if is_zero mb_init_ret
    then (mb_init modbus_id ∷ mb_enable ∷ [], if is_zero mb_enable_ret then pos 0 else negsuc 0)
    else (mb_init modbus_id ∷ [], negsuc 0)

-- thread_modbus up to its loop: whether it goes on to poll.
unfoldable pub thread_modbus_start : (modbus_id : ℕ) (mb_init_ret mb_enable_ret : ℤ) → Bool
unfolding modbus_initialize
thread_modbus_start modbus_id mb_init_ret mb_enable_ret =
    is_zero (modbus_initialize modbus_id mb_init_ret mb_enable_ret).1

pub data Thread : Type 0 where
  thread_modbus : Thread
  thread_adc : Thread

-- CONFIG_MODBUS and CONFIG_ADC.
pub record Config : Type 0 where
  pub modbus : Bool
  pub adc : Bool

-- How `main` leaves its start-up: it returns -1, or it enters its loop. Both with the threads that
-- run by then.
pub data Started : Type 0 where
  returned : List Thread → Started
  running : List Thread → Started

-- Creation of one thread, if it is configured; none of the later ones is tried if this one fails.
abbrev create : Bool → Thread → ℤ → List Thread → (List Thread → Started) → Started
create configured thread ret threads rest =
    if configured
    then (if is_zero ret then rest (threads ++ thread ∷ []) else returned threads)
    else rest threads

-- `main` up to its loop.
unfoldable pub main_start :
    Config → (mutex_init create_modbus create_adc : ℤ) → ModbusState × Started
unfolding device_initialize
main_start config mutex_init create_modbus create_adc =
    let (s, ret) = device_initialize mutex_init in
    (
      s,
      if is_zero ret
          then create config.modbus thread_modbus create_modbus []
              (λ threads. create config.adc thread_adc create_adc threads running)
          else returned [],
    )

-- The body of the loop of `main`, up to its sleep.
unfoldable pub main_round : ModbusState → Outcome ModbusState
main_round s = do
  s ← mutex_lock s
  let counted = record s { input = record s.input { cntr = u16 (s.input.cntr + 1) } }
  done (mutex_unlock counted)
