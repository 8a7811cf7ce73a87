-- ===== src/Broker.antt =====
-- packages/syft/src/syft/service/queue/zmq_producer.py and zmq_common.py: the broker between the
-- queue of jobs and the workers.
pub mod State
pub mod Purging
pub mod Dispatching
pub mod Protocol
pub mod Loop
pub mod Lists
pub mod Delete
pub mod Purge
pub mod Expiry
pub mod Serve
pub mod Invariant
pub mod Runs
pub mod Handling
pub mod Safety
mod Stuck
pub mod Examples
