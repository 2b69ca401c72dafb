-- ===== src/Tests.antt =====
-- The theorems at concrete inputs, and the data that they use.
mod Data
mod Models
mod Store
mod RedisServer
mod Redis
mod Events
mod Sse
mod Auth
mod AuthRoutes
mod Errors
mod Config
mod Cluster
mod QueryEngine
mod Health
mod Delta
mod Previous
