-- ===== src/Events.antt =====
-- observability/run_store.py and contracts/events.py: the events of a Run. `Log` is the event store,
-- `Delivery` a subscription, `Durable` the store on disk; the other modules prove.
pub mod Log
pub mod Lines
pub mod Numbering
pub mod Delivery
pub mod Stream
pub mod Durable
pub mod Recovery
pub mod Queues
