-- ===== src/Project.antt =====
-- packages/syft/src/syft/service/project/project.py and project_service.py: the log of events of a
-- project, which one leading server keeps for all members.
pub mod Log
pub mod Service
pub mod Chain
mod Deciding
pub mod Growing
pub mod Serving
pub mod Adding
mod Examples
