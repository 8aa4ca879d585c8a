-- ===== src/Samples.antt =====
-- Sample data, and one concrete run for each stated property.
mod Data
mod Scheduling
mod Requests
mod Machines
mod Texts
mod Live
mod Local
mod Tenants
