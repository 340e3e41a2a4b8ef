-- ===== src/Examples.antt =====
-- The theorems at concrete inputs.
mod Streams
mod Logs
mod Endings
mod Appends
mod ToolCalls
mod Versions
mod Histories
mod Actors
mod Shells
mod Edits
mod Queues
mod Replays
mod Usages
mod Loops
mod Thoughts
