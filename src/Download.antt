-- ===== src/Download.antt =====
-- app/application/handlers/download_handler.py: the handlers of a download, from the ports that
-- they are given down to the proofs about the counts, the status and the end of the loop.
pub mod Ports
pub mod Start
pub mod State
pub mod Files
pub mod Batch
pub mod Loop
pub mod Counts
pub mod Keeps
pub mod Examples
