-- ===== src/Tests.antt =====
-- Concrete runs of the components, at which the theorems are applied.
mod Data
mod Goals
mod Velocity
mod Safety
mod Plugins
mod Supervisor
mod System
mod Texts
mod Sensors
mod Transforms
mod Switcher
mod Reconfigure
