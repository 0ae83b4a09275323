-- ===== src/Tests.antt =====
-- The theorems at concrete inputs.
pub mod Ring
pub mod Engine
pub mod Crc
pub mod Core
pub mod Parser
pub mod Reactor
pub mod Epoll
pub mod Setup
pub mod Mempool
pub mod Echo
pub mod Program
pub mod Machines
pub mod Serial
