-- ===== src/Execution.antt =====
-- packages/syft/src/syft/service/policy/policy.py and service/code/user_code_service.py: which code
-- runs for whom, and on which inputs.
pub mod Policies
pub mod Code
pub mod Calls
pub mod Matching
pub mod Giving
pub mod Rules
pub mod Running
pub mod Denied
mod Examples
