-- ===== src/Delivery.antt =====
-- The durable delivery of messages: app/app/application/dto/outbox.py, the outbox repository and the
-- delivery policies of app/app/infrastructure.
pub mod Event
pub mod Store
pub mod Outbox
pub mod Policy
pub mod Tasks
pub mod Observation
pub mod Workers
pub mod Pump
pub mod History
mod Sample
mod Tests
