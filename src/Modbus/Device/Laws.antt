-- ===== src/Modbus/Device/Laws.antt =====
-- Start-up leaves a valid device, and what happens when a call fails; the counter of the main thread.
use railab_nuttx_code.Prelude.{
  ℕ, zero, suc, ◌+◌, ◌%◌, ◌^◌, ◌≡◌, ◌≢◌, ◌↔◌, ◌<◌, true, false, List, [], ◌∷◌, ℤ, pos, negsuc,
  Outcome, done, ◌>>=◌, if◌then◌else◌, arith,
}
use railab_nuttx_code.Modbus.State.{ModbusState}
use railab_nuttx_code.Modbus.Ready.{IsReady}
use railab_nuttx_code.Modbus.Device.{
  is_zero, mb_init, mb_enable, modbus_initialize, thread_modbus_start, Thread, thread_modbus,
  thread_adc, Config, running, main_start, main_round,
}

is_zero_iff : (z : ℤ) → (is_zero z ≡ true) ↔ (z ≡ pos 0)
is_zero_iff (pos n) = (λ h. ground arith, λ h. ground arith)
is_zero_iff (negsuc n) = (λ h. absurd (cc), λ h. absurd (cc))

-- The threads that a configuration asks for, in the order of their creation.
abbrev pub configured : Config → List Thread
configured c =
    if c.modbus
    then (if c.adc then thread_modbus ∷ thread_adc ∷ [] else thread_modbus ∷ [])
    else (if c.adc then thread_adc ∷ [] else [])

-- Every call that start-up makes returns 0.
pub record AllSucceed (c : Config) (mutex_init create_modbus create_adc : ℤ) : Type 0 where
  pub mutex : mutex_init ≡ pos 0
  pub modbus : c.modbus ≡ true → create_modbus ≡ pos 0
  pub adc : c.adc ≡ true → create_adc ≡ pos 0

module _ (c : Config) (mutex_init create_modbus create_adc : ℤ) where
  -- When the mutex is initialised and every configured thread is created, `main` enters its loop
  -- with just the configured threads.
  main_start_runs :
      AllSucceed c mutex_init create_modbus create_adc
      → (main_start c mutex_init create_modbus create_adc).1 ≡ running (configured c)
  unfolding main_start
  main_start_runs k = ground (
    arith,
    is_zero_iff mutex_init,
    is_zero_iff create_modbus,
    is_zero_iff create_adc,
    k.mutex,
    k.modbus,
    k.adc,
  )

  -- `main` enters its loop only if the mutex was initialised and every configured thread created,
  -- and with no other threads than those.
  main_start_needs :
      (threads : List Thread)
      → (main_start c mutex_init create_modbus create_adc).1 ≡ running threads
      → AllSucceed c mutex_init create_modbus create_adc × (threads ≡ configured c)
  unfolding main_start
  main_start_needs threads e =
      ground (arith, is_zero_iff mutex_init, is_zero_iff create_modbus, is_zero_iff create_adc)

-- Once the mutex is initialised the device is valid with the mutex free, not marked ready, with the
-- default interval, no reset request and the counter at zero, whatever the creation of the threads
-- returns.
pub main_start-IsReady :
    (c : Config) (create_modbus create_adc : ℤ)
    → let s = (main_start c (pos 0) create_modbus create_adc).0 in
      IsReady s
      × (s.input.status ≡ 0)
      × (s.input.cntr ≡ 0)
      × (s.holding.interval ≡ 10000)
      × (s.holding.rst_stats ≡ 0)
unfolding main_start
main_start-IsReady c create_modbus create_adc = ground arith

-- The Modbus thread polls exactly when both eMBInit and eMBEnable return MB_ENOERR; eMBInit is
-- called first, with the configured address, and eMBEnable exactly after one that succeeds.
modbus_initialize_lem :
    (id : ℕ) (init enable : ℤ)
    → ((thread_modbus_start id init enable ≡ true) ↔ ((init ≡ pos 0) × (enable ≡ pos 0)))
      × (((modbus_initialize id init enable).0 ≡ mb_init id ∷ mb_enable ∷ []) ↔ (init ≡ pos 0))
      × (((modbus_initialize id init enable).0 ≡ mb_init id ∷ []) ↔ (init ≢ pos 0))
unfolding thread_modbus_start
modbus_initialize_lem id init enable = (
  (
    λ h. ground (arith, is_zero_iff init, is_zero_iff enable),
    λ h. ground (arith, is_zero_iff init, is_zero_iff enable),
  ),
  (λ h. ground (arith, is_zero_iff init), λ h. ground (arith, is_zero_iff init)),
  (λ h. ground (arith, is_zero_iff init), λ h. ground (arith, is_zero_iff init)),
)

-- The main thread's counter after `n` rounds.
abbrev main_rounds : ℕ → ModbusState → Outcome ModbusState
main_rounds zero s = done s
main_rounds (suc n) s = do s ← main_rounds n s; main_round s

-- From a state with the mutex free and a 16-bit counter, `n` rounds of the main loop return, and
-- change only the counter, which has advanced by `n` modulo 2 ^ 16.
main_rounds_lem :
    (n : ℕ) (s : ModbusState)
    → s.lock ≡ false
    → s.input.cntr < 2 ^ 16
    → main_rounds n s
      ≡ done (record s { input = record s.input { cntr = (s.input.cntr + n) % 2 ^ 16 } })
unfolding main_round
main_rounds_lem zero s free fits = ground arith
main_rounds_lem (suc n) s free fits = rw (main_rounds_lem n s free fits) (ground arith)
