-- ===== src/Devices.antt =====
-- The modelled devices of mimirheim/devices: what they add to the solver's model, and what that means.
pub mod Grid
pub mod DeferrableLoad
pub mod Pv
pub mod ThermalBoiler
mod Tests
