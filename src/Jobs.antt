-- ===== src/Jobs.antt =====
-- Jobs and the queue of their items: packages/syft/src/syft/service/queue/queue_stash.py and
-- queue.py, packages/syft/src/syft/service/job/job_stash.py, and `read_items` of
-- packages/syft/src/syft/service/queue/zmq_producer.py.
pub mod Status
pub mod Stashes
pub mod Handling
pub mod Settling
pub mod Replying
pub mod Taking
pub mod Reading
pub mod Once
pub mod Scanning
mod Examples
