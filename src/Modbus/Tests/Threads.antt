-- ===== src/Modbus/Tests/Threads.antt =====
-- The threads at a concrete schedule: one full round of the ADC thread, then a request.
use railab_nuttx_code.Prelude.{
  if◌then◌else◌, ◌⊎◌, ◌+◌, ◌≤◌, ◌<◌, ◌≡◌, refl, [], ◌∷◌, done, arith, false, fetch, store, int16,
  ◌+ℤ◌, ◌-ℤ◌, ◌*ℤ◌, zero, suc,
}
use railab_nuttx_code.Modbus.Callbacks.{Reply, mb_enoerr, input_locked, read_regs}
use railab_nuttx_code.Modbus.Serial.{Serial, replied, sampled, started_adc}
use railab_nuttx_code.Modbus.Threads.Linear.{threads_are_sequential}
use railab_nuttx_code.Modbus.Adc.{ema, reset_from, adc_reset_stats, serve_reset, store_sample}
use railab_nuttx_code.Modbus.Adc.Convert.{raw_to_milivolt}
use railab_nuttx_code.Modbus.State.{unlocked}
use railab_nuttx_code.Modbus.Threads.Progress.{requests_can_be_answered}
use railab_nuttx_code.Modbus.Threads.{
  Step, answering, input, polling, System, answer, modbus_lock, modbus_reply, adc_open, adc_start,
  adc_lock, adc_serve, adc_store, adc_unlock, Reach, created, later,
}
use railab_nuttx_code.Modbus.Threads.Invariant.{IsBlank, main_in, adc_in, modbus_in}
use railab_nuttx_code.Modbus.Threads.Snapshot.{OneHistory, mutual_exclusion, answers_are_snapshots}
use railab_nuttx_code.Modbus.Threads.Release.{Run}
use railab_nuttx_code.Modbus.Threads.Range.{Is12Bit, IsPlausible, channels_in_range}
use railab_nuttx_code.Modbus.Adc.Channels.{channel, forget}
use railab_nuttx_code.Modbus.Threads.Brief.{Held, here, further, mutex_held_briefly}
use railab_nuttx_code.Modbus.Tests.Data.{
  swap16, swap16-SwapsBytes, buffer4, started, started-IsStart, sample, sample-IsSample,
}

lt_4 : (0 < 4) × (1 < 4) × (2 < 4) × (3 < 4)
lt_4 = omega arith

-- Up to the unlock of the first round.
one_round : (s : System) × Reach swap16 swap16 started s
unfolding reset_from adc_reset_stats serve_reset store_sample ema raw_to_milivolt fetch store int16
    ◌+ℤ◌ ◌-ℤ◌ ◌*ℤ◌
one_round =
    let r0 = later created (adc_open refl refl) in
    let r1 = later r0 (adc_start _ refl refl) in
    let r2 = later r1 (adc_lock sample refl refl sample-IsSample) in
    let r3 = later r2 (adc_serve sample _ refl refl) in
    let r4 = later r3 (adc_store sample 0 _ refl lt_4.0 refl) in
    let r5 = later r4 (adc_store sample 1 _ refl lt_4.1 refl) in
    let r6 = later r5 (adc_store sample 2 _ refl lt_4.2 refl) in
    let r7 = later r6 (adc_store sample 3 _ refl lt_4.3 refl) in
    let r8 = later r7 (adc_unlock sample refl) in (_, r8)

sample-Is12Bit : Is12Bit sample
sample-Is12Bit zero below = omega arith
sample-Is12Bit (suc zero) below = omega arith
sample-Is12Bit (suc (suc zero)) below = omega arith
sample-Is12Bit (suc (suc (suc zero))) below = omega arith
sample-Is12Bit (suc (suc (suc (suc j)))) below = absurd (omega arith)

channels_in_range_example :
    IsBlank (channel one_round.0.device.input 1)
    ⊎ ((channel one_round.0.device.input 1 ≡ forget (channel one_round.0.device.input 1))
        ⊎ IsPlausible (channel one_round.0.device.input 1))
unfolding one_round
channels_in_range_example =
    channels_in_range swap16 swap16 started-IsStart 1 one_round.1 refl (sample-Is12Bit, tt) lt_4.1

-- A master then asks for registers 3 and 4.
asked : (s : System) × Reach swap16 swap16 started s
unfolding one_round
asked = (_, later one_round.1 (modbus_lock (input buffer4 3 2) refl refl))

answers_are_snapshots_example :
    (answer swap16 swap16 (input buffer4 3 2) asked.0.device
      ≡ done (record { mberr = mb_enoerr; buffer = 0 ∷ 0 ∷ 3 ∷ 37 ∷ []; state = asked.0.device }))
    × OneHistory asked.0
unfolding asked
answers_are_snapshots_example =
    answers_are_snapshots swap16 swap16 started-IsStart swap16-SwapsBytes asked.1 refl (omega arith)
      (omega arith)

mutual_exclusion_example :
    (main_in asked.0.main + adc_in asked.0.adc + modbus_in asked.0.modbus ≤ 1)
    × (main_in asked.0.main + adc_in asked.0.adc + modbus_in asked.0.modbus
        ≡ (if asked.0.device.lock then 1 else 0))
mutual_exclusion_example = mutual_exclusion swap16 swap16 started-IsStart asked.1

-- The ADC thread in its first round, with the mutex taken.
taken_by_adc : (s : System) × Reach swap16 swap16 started s
unfolding reset_from adc_reset_stats fetch store
taken_by_adc =
    let r0 = later created (adc_open refl refl) in
    let r1 = later r0 (adc_start _ refl refl) in
    let r2 = later r1 (adc_lock sample refl refl sample-IsSample) in (_, r2)

two_stored : (t : System) × Held swap16 swap16 taken_by_adc.0 3 t
unfolding taken_by_adc reset_from adc_reset_stats serve_reset store_sample ema raw_to_milivolt fetch
    store int16 ◌+ℤ◌ ◌-ℤ◌ ◌*ℤ◌
two_stored =
    let h0 = further here refl (adc_serve sample _ refl refl) in
    let h1 = further h0 refl (adc_store sample 0 _ refl lt_4.0 refl) in
    (_, further h1 refl (adc_store sample 1 _ refl lt_4.1 refl))

mutex_held_briefly_example :
    (3 ≤ 6)
    × ((two_stored.0.device.lock ≡ false) ⊎ ((u : System) × Held swap16 swap16 taken_by_adc.0 4 u))
unfolding two_stored
mutex_held_briefly_example =
    mutex_held_briefly swap16 swap16 started-IsStart taken_by_adc.1 two_stored.1 tt

-- The Modbus thread replies.
reply : Reply
unfolding one_round
reply = record { mberr = mb_enoerr; buffer = 0 ∷ 0 ∷ 3 ∷ 37 ∷ []; state = one_round.0.device }

answered : (s : System) × Reach swap16 swap16 started s
unfolding asked reply one_round input_locked read_regs fetch store
answered = (
  _,
  later asked.1
      (modbus_reply (input buffer4 3 2) (record reply { state = asked.0.device }) refl refl),
)

threads_are_sequential_example :
    Serial swap16 swap16 started
      (replied (input buffer4 3 2) reply ∷ sampled sample ∷ started_adc ∷ [])
      answered.0.device
unfolding answered reply one_round asked
threads_are_sequential_example =
    threads_are_sequential swap16 swap16 started-IsStart answered.1 refl

requests_can_be_answered_example :
    (t : System) × (r : Reply) × Run swap16 swap16 one_round.0 t
    × (t.modbus ≡ answering (input buffer4 3 2))
    × (answer swap16 swap16 (input buffer4 3 2) t.device ≡ done r)
    × Step swap16 swap16 t (record t { device = unlocked r.state; modbus = polling })
unfolding one_round
requests_can_be_answered_example =
    requests_can_be_answered swap16 swap16 started-IsStart one_round.1 refl (input buffer4 3 2)
      (omega arith)
