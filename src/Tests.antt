-- ===== src/Tests.antt =====
-- Runs on concrete inputs.
mod Device
mod Tokens
mod Running
mod Ending
mod Starting
mod Storage
mod Booting
mod Numbers
mod Requests
mod Agreement
