-- ===== src/Tests.antt =====
-- Runs of the models on concrete inputs, and the theorems at inputs that meet their hypotheses.
mod Invert
mod Invert2
mod Http
mod Market
mod LruCache
mod Exp
mod FileCp
mod Wrap
mod EpollServer
mod PollServer
mod Philosophers
mod Pools
mod SimplePool
mod Reactor
mod Charset
