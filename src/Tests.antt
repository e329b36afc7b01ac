-- ===== src/Tests.antt =====
-- Runs of the model on small inputs, and the theorems at concrete arguments.
pub mod Data
mod Registry
mod Packets
mod Connector
mod Board
mod Coap
mod System
mod Web
mod Servers
mod BoardServer
