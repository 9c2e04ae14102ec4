-- ===== src/Modbus.antt =====
-- The Modbus slave, apps/mini_modbusslave/modbusslave_main.c.
pub mod State
pub mod Wire
pub mod Ready
pub mod Callbacks
pub mod Adc
pub mod Device
pub mod Threads
pub mod EndToEnd
pub mod Serial
pub mod Account
mod Tests
