-- ===== src/Examples.antt =====
-- Parameters of the model at concrete values, and the theorems at concrete inputs.
pub mod Instances
pub mod Rounding
mod Inversion
mod Polynomials
mod Transforms
mod Loops
mod Commitments
mod Cosets
mod Failures
mod Schedules
mod Devices
mod GpuLoops
mod Hints
mod Tables
