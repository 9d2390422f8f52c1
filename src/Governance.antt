-- ===== src/Governance.antt =====
-- Governance of a company (src/governance): permission rules, employee policies, approvals and the
-- grants that they give.
pub mod Domain
pub mod Permissions
pub mod Policies
pub mod Approvals
pub mod Requests
pub mod Tests
