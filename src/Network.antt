-- ===== src/Network.antt =====
-- headers/network and sources/network: the clients, the pool that owns them and its manager. The
-- system calls are parameters of what makes them.
pub mod Buffer
pub mod Client
pub mod ConnectionPool
pub mod Pool
pub mod EventLoop
pub mod Listener
pub mod PoolManager
pub mod Server
pub mod Ownership
pub mod Poller
pub mod ThreadPool
