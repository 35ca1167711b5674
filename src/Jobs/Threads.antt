-- ===== src/Jobs/Threads.antt =====
-- graph-rag/src/server.js: the threads of the worker pool (`levelRoom`, `claimThreads`, `threadAgent`,
-- `finishThread`, `resumeThread`).
--
-- `entry_name` is the name of the entry that a record id holds, if there is one (`entryForBrief`). A
-- message is what the thread's text is made from. What `finishThread` writes to the entry itself (the
-- time of its review, a task's report) and the outcome of its triage are left out.
mod Claiming
mod Turns
mod Messages
unfoldable pub use Claiming.*
unfoldable pub use Turns.*
unfoldable pub use Messages.*
