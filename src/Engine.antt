-- ===== src/Engine.antt =====
-- The engine: its types (engine/esma_types.h), the loader (engine/esma_load.c), the dispatcher
-- (engine/esma_engine_dispatcher.c), the parser of templates (engine/esma_template.c) and the poll reactor
-- (engine/modules/esma_reactor_poll.c); Program is the parser and the loader together.
pub mod Types
pub mod Load
pub mod World
pub mod Dispatch
pub mod Parser
pub mod Reactor
pub mod Epoll
pub mod Program
pub mod Machines
pub mod Exec
pub mod Setup
