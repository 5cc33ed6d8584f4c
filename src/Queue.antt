-- ===== src/Queue.antt =====
-- src/nodes/queue_node.py: the consistent hash ring, the message store and the queue node.
pub mod Ring
mod Routing
mod Walk
mod Cover
pub mod Store
mod Delivery
pub mod Node
pub mod Broker
mod Publish
mod Redelivery
mod Reload
mod Tests
