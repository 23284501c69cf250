-- ===== src/Tests.antt =====
-- Concrete rows, tests, and the theorems at inputs that meet their hypotheses.
pub mod Data
mod Access
mod Scripts
mod Quota
mod Agents
mod Scheduler
mod Cycles
mod Users
mod Browsers
mod Onboarding
mod Crawl
mod Evidence
mod Reports
mod Pages
mod Webhooks
mod Search
mod Platform
mod Middleware
