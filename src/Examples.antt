-- ===== src/Examples.antt =====
-- Runs of the decoder at small inputs, and the theorems applied to them.
mod Toy
mod Values
mod Decoder
mod Command
mod Union
mod App
mod Session
mod Errors
mod Honest
mod Events
