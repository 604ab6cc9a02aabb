-- ===== src/Session.antt =====
-- The pytest session (conftest.py): its targets and the marks of items, which collected items run
-- and whether they are accepted, what is written of the others, the clients and databases of the
-- tests, the second phase, and the merge of the two phases' reports.
pub mod Merge
pub mod Gate
pub mod Phases
pub mod Junit
pub mod Validate
pub mod Collect
pub mod Setup
pub mod Sidecar
pub mod Clients
pub mod Fixtures
