-- ===== src/SystemIo.antt =====
-- src/modules/systemio: the front ends of the hardware modules, which hand out handles, and the
-- Linux code below the GPIO module.
pub mod Handles
pub mod Gpio
pub mod Pwm
pub mod I2c
pub mod Serial
pub mod Spi
pub mod Adc
