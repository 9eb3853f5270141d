-- ===== src/Tests.antt =====
-- Concrete runs of the models, and an in-memory implementation of the ports for them.
mod Memory
mod Api
mod Processor
mod Router
mod Dispatcher
mod Http
mod Reports
mod Due
mod Postgres
mod Table
mod Cluster
mod Startup
mod Loop
mod Tallies
mod Nats
mod Lock
mod Journey
mod Workers
mod Health
