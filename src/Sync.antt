-- ===== src/Sync.antt =====
-- packages/syft/src/syft/service/sync/diff_state.py and sync_state.py, client/syncing.py and
-- sync_decision.py: the comparison of a low and a high server, and the batches that are synced.
mod Examples
mod Runs
mod Objects
mod Graph
mod Reach
mod Walk
mod Instructions
mod Resolved
mod Batch
mod Ignore
mod Decisions
mod Ignoring
mod Unignoring
mod Setting
mod Restoring
mod Hiding
mod Handle
mod Placing
mod Making
mod Parts
mod Sending
mod Placement
mod Arriving
mod Sends
mod Sharing
mod Listing
mod Filters
mod Filtering
mod Creating
mod Missing
mod Server
mod Staying
mod Sort
mod Sorting
