-- ===== src/S2.antt =====
-- s2: the service server. `S2/Service` models a service and its states, `S2/Server` the server of
-- s2/s2.go, `S2/Steps` what runs beside the calls, `S2/Waiting` the waiting for services, `S2/Stat`
-- and `S2/Printing` the statistics, and `S2/Ready` the services of s2/services.go.
pub mod Service
pub mod Server
pub mod Steps
pub mod Calls
pub mod Looping
pub mod States
pub mod Twice
pub mod Locked
pub mod Waiting
pub mod Stat
pub mod Printing
pub mod Ready
mod Tests
