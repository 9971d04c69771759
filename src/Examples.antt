-- ===== src/Examples.antt =====
-- Runs of the models, and the theorems at inputs of the kind that a bus carries.
mod SetBlock
mod GetBlock
mod Protocol
mod Codec
mod Dispatcher
mod Socket
mod App
mod CommandLine
mod Waiting
mod Writing
