-- ===== src/MessageQueue.antt =====
-- The message queues of Lab23, Lab24 and Lab23-24: doubly linked lists of messages, to which
-- producers put at the head and from which consumers get at the tail.
pub mod Cells
pub mod Counting
pub mod Destroy
pub mod Posting
pub mod Signal
pub mod Spec
pub mod Broadcast
