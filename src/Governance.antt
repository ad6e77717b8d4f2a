-- ===== src/Governance.antt =====
-- The governance layer (app/governance): the audit trail, approval requests, and the registries of
-- models and prompts. A registry keeps its records in a repository, which the program only
-- declares as a protocol, and writes to the audit trail.
pub mod Audit
pub mod Approval
pub mod Models
pub mod Prompts
pub mod InMemory
mod Tests
