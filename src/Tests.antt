-- ===== src/Tests.antt =====
-- The theorems at concrete inputs.
mod Names
mod Toys
mod Stores
mod World
mod Flow
mod Subject
mod Factory
mod Discovery
mod Routes
mod Files
mod Records
mod Answers
mod OnRedis
mod Forms
mod Oauth
mod Credentials
mod Signals
mod Access
mod Served
mod Polling
mod Retry
mod Replicas
mod Waited
