-- ===== src/Application/ContextLaws.antt =====
-- What the selection of an AI operation's context guarantees.
pub mod Budget
pub mod Bare
pub mod Prefix
pub mod Canonical
