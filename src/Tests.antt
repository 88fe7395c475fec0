-- ===== src/Tests.antt =====
-- Runs of the modelled code on concrete data.
mod Books
mod Files
mod Limits
mod Orders
mod Plans
mod Queues
mod Services
mod Sweeps
mod Venues
mod Routes
