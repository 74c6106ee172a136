-- ===== src/Examples.antt =====
-- Tests, and the theorems at concrete inputs.
mod Tree
mod Commands
mod Gates
mod Waypoints
mod Fallbacks
mod Machines
mod Zones
mod Registrations
mod Monitors
mod Lost
mod Workers
mod Teams
mod Sweeps
mod Texts
mod Graphs
