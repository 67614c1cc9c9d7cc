-- ===== src/Net.antt =====
-- The network library in master/net.
pub mod Buffer
pub mod Channel
pub mod Connection
pub mod LoopPool
pub mod Connector
pub mod TimerQueue
pub mod EventLoop
pub mod TcpServer
pub mod Poller
