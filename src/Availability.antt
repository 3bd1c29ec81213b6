-- ===== src/Availability.antt =====
-- Paxalia Availability (paxalia/uptime.py): monitors, their observations and incidents.
pub mod Record
pub mod Schedule
pub mod Response
mod Tests
