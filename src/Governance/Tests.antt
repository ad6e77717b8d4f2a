-- ===== src/Governance/Tests.antt =====
-- The theorems on app/governance at concrete records.
mod Approvals
mod Registry
mod Versions
