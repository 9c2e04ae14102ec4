-- ===== src/Modbus/Tests/Data.antt =====
-- Test data: the byte order functions of a little-endian host, devices and samples.
use railab_nuttx_code.Prelude.{
  ℕ, zero, suc, ◌+◌, ◌*◌, ◌/◌, ◌%◌, ◌<◌, refl, false, List, [], ◌∷◌, ℤ, pos, negsuc, replicate,
  arith,
}
use railab_nuttx_code.Modbus.State.{ModbusState, adc_samples}
use railab_nuttx_code.Modbus.Ready.{IsReady}
use railab_nuttx_code.Modbus.Wire.{SwapsBytes}
use railab_nuttx_code.Modbus.Adc.Channels.{AllFit, channel}
use railab_nuttx_code.Modbus.Threads.Invariant.{IsBlank}
use railab_nuttx_code.Modbus.Adc.Statistics.{IsSample}
use railab_nuttx_code.Modbus.Threads.Snapshot.{IsStart}

abbrev pub swap16 : ℕ → ℕ
swap16 x = x % 256 * 256 + x / 256

pub swap16-SwapsBytes : SwapsBytes swap16
swap16-SwapsBytes x h = refl

abbrev pub buffer4 : List ℕ
buffer4 = 9 ∷ 9 ∷ 9 ∷ 9 ∷ []

-- A device that has sampled, with a request to reset its statistics.
abbrev pub device : ModbusState
device = record {
  input = record {
    status = 1;
    cntr = 260;
    now = pos 100 ∷ pos 0 ∷ negsuc 0 ∷ pos 3300 ∷ [];
    min = pos 90 ∷ pos 0 ∷ negsuc 1 ∷ pos 3000 ∷ [];
    max = pos 110 ∷ pos 5 ∷ pos 3 ∷ pos 3300 ∷ [];
    avg = pos 99 ∷ pos 1 ∷ pos 0 ∷ pos 3100 ∷ [];
  };
  holding = record { interval = 10000; rst_stats = 7 };
  lock = false;
}

pub device-IsReady : IsReady device
device-IsReady = record {
  valid = record {
    status = omega arith;
    cntr = omega arith;
    interval = omega arith;
    rst_stats = omega arith;
    shaped = record { now = refl; min = refl; max = refl; avg = refl };
  };
  free = refl;
}

-- The device as start-up leaves it.
abbrev pub started : ModbusState
started = record {
  input = record {
    status = 0;
    cntr = 0;
    now = replicate adc_samples (pos 0);
    min = replicate adc_samples (pos 0);
    max = replicate adc_samples (pos 0);
    avg = replicate adc_samples (pos 0);
  };
  holding = record { interval = 10000; rst_stats = 0 };
  lock = false;
}

started-IsBlank : (j : ℕ) → j < adc_samples → IsBlank (channel started.input j)
started-IsBlank zero p = refl
started-IsBlank (suc zero) p = refl
started-IsBlank (suc (suc zero)) p = refl
started-IsBlank (suc (suc (suc zero))) p = refl
started-IsBlank (suc (suc (suc (suc j)))) p = absurd (omega arith)

pub started-IsStart : IsStart started
started-IsStart = record {
  ready = record {
    valid = record {
      status = omega arith;
      cntr = omega arith;
      interval = omega arith;
      rst_stats = omega arith;
      shaped = record { now = refl; min = refl; max = refl; avg = refl };
    };
    free = refl;
  };
  blank = started-IsBlank;
}

abbrev pub sample : List ℤ
sample = pos 0 ∷ pos 1000 ∷ pos 2048 ∷ pos 4095 ∷ []

abbrev pub sample2 : List ℤ
sample2 = pos 4 ∷ pos 900 ∷ pos 2050 ∷ pos 4095 ∷ []

fits :
    (a b c d : ℕ)
    → a < 4096
    → b < 4096
    → c < 4096
    → d < 4096
    → AllFit (pos a ∷ pos b ∷ pos c ∷ pos d ∷ [])
fits a b c d ha hb hc hd zero p = omega arith
fits a b c d ha hb hc hd (suc zero) p = omega arith
fits a b c d ha hb hc hd (suc (suc zero)) p = omega arith
fits a b c d ha hb hc hd (suc (suc (suc zero))) p = omega arith
fits a b c d ha hb hc hd (suc (suc (suc (suc i)))) p = absurd (omega arith)

pub sample-IsSample : IsSample sample
sample-IsSample =
    (refl, fits 0 1000 2048 4095 (omega arith) (omega arith) (omega arith) (omega arith))

pub sample2-IsSample : IsSample sample2
sample2-IsSample =
    (refl, fits 4 900 2050 4095 (omega arith) (omega arith) (omega arith) (omega arith))
