-- ===== src/Lib.antt =====
-- gwarestrin: who may see what in the organization's knowledge graph.
--
-- The program is a knowledge graph service for an organization, with agents that work on it.
-- graph-rag/src/server.js stores entries in a graph database and serves them; the rules that it applies are
-- pure functions in the other files of graph-rag/src. packages/server runs the agents: its pool claims threads
-- from the service's queue and runs each as an agent with a token of its own. provisioner decides what each
-- workspace may use. Modelled here are the parts named below.
--
--   Positions   graph-rag/src/positions.js   the tree of positions, visibility, moves of an entry
--   Grading     graph-rag/src/grading.js     the home that a grader's verdict gives an entry
--   Placement   graph-rag/src/placement.js   origin, verdict, current home and derived-data floor together
--   Grants      graph-rag/src/grants.js      what is shared outside a position's reach, and for how long
--   Delegation  graph-rag/src/delegation.js the identity that an agent token stands for
--   Health      graph-rag/src/health.js     paused dependencies and the reports of background loops
--   Extent      graph-rag/src/extent.js     how long an entry stays true
--   Needs       graph-rag/src/needs.js      whom a question is shown to, and what each sees
--   Decisions   graph-rag/src/decisions.js  what the decision model's answers mean for an entry
--   Pool        graph-rag/src/pool.js       the settings of the worker pool and an entry's first job
--   Callers     graph-rag/src/server.js     who calls, what a query lets through, where a write lands
--   Reads       graph-rag/src/server.js     what a caller read lately, and the floor under what it writes
--   Jobs        graph-rag/src/server.js     threads, their questions and proposals, the master's handlers
--   Policy      graph-rag/src/policy.js     the organization's settings, and what an update may change
--   Pruning     graph-rag/src/prune.js      what is removed after its end, and the preview of it
--   Documents   graph-rag/src/documents.js  the sections that a document's text is cut into
--   Things      graph-rag/src/things.js     the thing that a statement's mention means
--   Lines       packages/server/src/util/lf-splitter.ts
--                                           the lines of what a process writes
--   Tokens      packages/server/src/agents/graph-token.ts
--                                           the token that an agent shows to the service
--   Workers     packages/server/src/agents/graph-pool.ts, last-reply.ts and src/instance/settings.ts
--                                           the pool of worker agents, its models' limits, a thread's turn,
--                                           the master's turn, and what is given back
--   Labels      provisioner/model-labels.mjs
--                                           which models an organization's agents may use
--   Instances   provisioner/instance-settings.mjs
--                                           what the admin decides per workspace
--   Dates                                    instants, date texts, and the "14d" form of a length
--
-- `Placement` calls `Grading`, and both and `Grants` call `Positions`: an entry's home is a position, and
-- who sees it is decided by `can_see`. `Delegation` narrows an agent's positions with the same rule, and
-- `Needs` climbs the same tree. `Base` holds what the modules share. Each component's definitions
-- stand in the file of its name (those of `Callers`, `Jobs` and the views of `Needs` in files below it),
-- its theorems in the files below, and their uses at concrete inputs in the `Examples` file below.
--
-- A JavaScript object with text keys is an association list in insertion order, read by its first entry;
-- inherited properties such as "constructor" are modelled where they decide what is accepted (the parser of
-- the position map, the stored settings of a workspace), and left out elsewhere: there an id is a position
-- only if the map has it as its own property. A `Set` is the list of what was added to it. An absent or null property is
-- `none`. Text is the native `String`; a number is a natural number. The clock is an argument.
--
-- What the code takes from outside is an argument too: `Date.parse` of a written text, `localeCompare`,
-- the printing of a number, and in `Delegation` a `Codec` for base64url, JSON and HMAC. `Health` keeps its
-- two maps as association lists, and an operation returns the new map with what it throws or logs.
--
-- `Callers` joins `Positions`, `Grants` and `Delegation` into the scope of a caller; `Reads` keeps what a
-- caller was shown (`Marks`) and gives `Placement` its floor. `Jobs` is the store behind the worker pool:
-- each operation takes the store and the clock and returns the new store, with its result or error. Its
-- query is a filter of a table and its update a map over it; neither fails. New ids, the name of an entry
-- in the database (`entry_name`) and what carrying out a write or running a job comes to (`execute`,
-- `run_job`) are arguments. An operation runs whole, except in Jobs/Race.antt, where the approvals of one
-- write mix step by step. Jobs/Sequences.antt has the operations on threads as a step relation.
--
-- Where the two programs meet, the models do: a token minted by `Tokens` is read by `Delegation`, the pool of
-- `Workers` claims its threads from the queue of `Jobs`, and `Labels` and `Instances` are the settings that
-- `Workers.Models` reads. `Tokens` and `Delegation` have an encoder and a codec as arguments, with the named
-- hypothesis `Agrees` that they treat one payload alike. What the agent manager answers to the calls of a turn
-- (`Outcomes`, `Round`) is an argument; the calls made are a list. The master's loop runs on fuel, a round for
-- each nudge and one more. Texts of documents and of streams are lists of UTF-16 code units.
--
-- Loops that climb the position tree run on fuel: the number of positions, and the held positions and all
-- positions together for the worklist of `visibleHomes`. The results about `visible_homes` and
-- `can_see` are equations with definitions that have no loop, so they would fail if the fuel ran out.
--
-- Not modelled: the other HTTP and tool handlers of server.js and its database, the prompts and messages
-- for models and people, the web client, what of the agent server handles streams, processes and storage, and
-- what of the provisioner calls Docker and the identity provider.
pub mod Base
pub mod Dates
pub mod Positions
pub mod Grading
pub mod Placement
pub mod Grants
pub mod Delegation
pub mod Health
pub mod Extent
pub mod Needs
pub mod Pool
pub mod Decisions
pub mod Callers
pub mod Reads
pub mod Jobs
pub mod Policy
pub mod Pruning
pub mod Documents
pub mod Lines
pub mod Tokens
pub mod Workers
pub mod Labels
pub mod Instances
pub mod Things
