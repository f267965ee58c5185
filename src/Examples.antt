-- ===== src/Examples.antt =====
-- Tests of the definitions, and the theorems at concrete inputs.
mod Instances
mod Addressing
mod Configuring
mod Requesting
mod Updating
mod Serving
mod Checking
mod Locking
mod Running
