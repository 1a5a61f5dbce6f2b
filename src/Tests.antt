-- ===== src/Tests.antt =====
-- Runs of the model on concrete inputs, and the theorems applied to them.
mod Parsing
mod Calls
mod Rooms
mod Rings
mod Ivr
mod Sounds
mod Limits
mod Documents
mod Users
mod Settings
mod Access
mod Offers
mod Stream
