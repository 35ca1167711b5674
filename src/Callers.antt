-- ===== src/Callers.antt =====
-- graph-rag/src/server.js: who calls (`resolveIdentity`, `requireCap`), what the caller sees (`scopeOf`,
-- `homeFilter`, `ownsHome`) and where its writes land (`resolveWriteHome`, `positionId`).
--
-- What the server has loaded is the record `Server`; its two maps of tokens are association lists.
-- `homeFilter` writes an SQL condition: `Cond` is that condition, and `meets` what it says of a row.
-- `text_lt` stands for `localeCompare`, and an absent `role` is `ordinary`.
mod Identity
mod Scopes
mod Filter
mod Destination
pub mod Homes
pub mod Rows
mod Examples
unfoldable pub use Identity.*
unfoldable pub use Scopes.*
unfoldable pub use Filter.*
unfoldable pub use Destination.*
