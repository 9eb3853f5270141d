-- ===== src/Public.antt =====
-- The public packages of the three services: api/public, processor/public and
-- deliveryscheduler/public. Channels, priorities, statuses and topics are strings in the program.
pub mod Channel
pub mod Priority
pub mod Status
pub mod Topic
pub mod Events
