-- ===== src/Workers.antt =====
-- packages/server/src/agents/graph-pool.ts: the pool of worker agents that the admin's workspace runs, and
-- packages/server/src/instance/settings.ts: which models its agents may use.
--
-- A thread that the graph service hands out is the `Thread` of the queue's model; a limited model's room is its
-- `Group`. What the agent manager does (making, starting and prompting an agent) is a result that a turn is given.
pub mod Models
pub mod Runs
pub mod Turns
pub mod Idle
pub mod MasterTurn
pub mod Limits
pub mod Size
pub mod Reports
pub mod Kept
pub mod Nudges
pub mod Replies
pub mod Latest
mod Examples
