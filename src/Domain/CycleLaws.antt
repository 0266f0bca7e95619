-- ===== src/Domain/CycleLaws.antt =====
-- What the transitions of a PDCA cycle guarantee.
pub mod Texts
pub mod Saving
pub mod Completion
pub mod Invariant
