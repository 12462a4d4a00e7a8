-- ===== src/Examples.antt =====
-- Concrete parameters, and runs at which the theorems apply.
mod Memory
mod Tables
mod Fixtures
mod Queueing
mod Relaying
mod Negotiating
mod Scheduling
mod Storing
mod Fetching
mod States
mod Verifying
mod Registering
mod Delivering
