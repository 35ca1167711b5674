-- ===== src/Jobs/Master.antt =====
-- graph-rag/src/server.js: the master and its handlers (`openItems`, `masterStatus`, `batchTick`,
-- `answerWorker`, `closeWorker`, `startHandler`, `handlerDecide`).
--
-- A message to the master is a `Signal`. What the master reads of a batch's entries is their names.
mod Batches
mod Workers
mod Handling
unfoldable pub use Batches.*
unfoldable pub use Workers.*
unfoldable pub use Handling.*
