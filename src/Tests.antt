-- ===== src/Tests.antt =====
-- Concrete worlds, and the theorems at concrete inputs.
mod Cell
mod CellWrites
mod CellLaws
mod Worlds
mod Storage
mod Tokens
mod Service
mod Refinements
mod Busy
mod Pages
mod Api
mod Messages
mod Tools
mod Keys
mod Failing
mod Pair
mod Startup
mod Archive
mod Writes
