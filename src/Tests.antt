-- ===== src/Tests.antt =====
-- Test runs of the definitions, and the theorems at concrete inputs.
mod Dialogues
mod Patches
mod Registries
mod Pools
mod Chunks
mod Rings
mod Caches
mod Calls
mod Stops
