-- ===== src/Tests.antt =====
-- Runs of the model of buzz-hermes-bridge on a small company, and instances of the theorems on it.
mod Fixtures
mod Policies
mod Runs
mod Steps
mod Logs
mod Validation
mod Requests
mod Agents
mod Histories
mod Queues
mod Pages
mod Messages
mod Orders
mod Chats
mod Transactions
