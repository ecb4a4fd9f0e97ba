-- ===== src/Examples.antt =====
-- Tests of the definitions, and the theorems at concrete inputs.
mod Gate
mod Ack
mod Checkback
mod Store
mod Peer
mod Supervisor
mod Room
mod Sqlite
mod Target
mod Session
mod Asks
