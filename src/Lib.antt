-- ===== src/Lib.antt =====
-- KAATS, the backend of a platform that writes, reviews and runs tests of enterprise systems with AI
-- agents (backend/app). FastAPI routers check who calls and hand each request to a service; a service
-- works on one SQLAlchemy session, which get_db commits when the request ends well and rolls back
-- when it raises. Companies own systems, systems own requirements and test scripts, and agents run
-- under a monthly quota of the company.
--
-- Files, each with the code that it models:
--   Base, Base.Rows, Base.Outcome, Base.Tests: tables as lists of rows with a primary key, results
--     of requests (an HTTP status with one constructor for each detail text, or another exception),
--     methods on a session as functions from rows to a result and rows, and Boolean tests.
--   Schema: the rows (backend/app/models), and Db, all tables that the model keeps.
--   Access: Permission and ROLE_PERMISSIONS (Access.Roles), CurrentUser, check_system_ownership,
--     require_system_access and the role gates (Access.Check) of backend/app/auth and
--     backend/app/dependencies.py.
--   Scripts: TestScriptService of backend/app/services/test_script_service.py, the cases and steps
--     of a new script in Scripts.Cases.
--   Quota: UsageService of backend/app/services/usage_service.py.
--   Agents: AgentDispatcher and AgentRunService (backend/app/services), the life of a run in the
--     worker, with the feedback to its scheduled job and the token metering (Agents.Worker, of
--     backend/app/worker/service_bus_worker.py and backend/app/agents/base.py).
--   Scheduler: the evaluation pass and the dispatch of a job (backend/app/scheduler), and
--     SchedulerService of backend/app/services/scheduler_service.py (Scheduler.Jobs).
--   Cycles: TestCycleService of backend/app/services/test_cycle_service.py, with the results, the
--     progress and the execution of a cycle in child modules.
--   Systems: SystemService of backend/app/services/system_service.py; lists, creation, updates and
--     statistics in Systems.Views.
--   Users: invitations and roles, of backend/app/services/user_service.py.
--   Requirements: updates, deletion, approval and the quality score with its cache, the pages that a
--     client follows by cursors (Requirements.Paging, with backend/app/schemas/common.py), and the
--     import of Word documents (Requirements.Import) and of CSV and JSON files (Requirements.Formats), of
--     backend/app/services/requirement_service.py.
--   Onboarding: invitations, their acceptance and the checklist of a new company, of
--     backend/app/routers/onboarding.py, with the entries of
--     backend/app/services/audit_service.py; what a signed-in administrator asks in
--     Onboarding.Requests.
--   Memory: the working memory of an agent, of backend/app/agents/memory.py.
--   Crawl: the tools that open URLs, click tiles and offer links, and Evidence: the tools that record an
--     execution and its steps, both of backend/app/agents/tool_registry.py, with the totals of
--     backend/app/agents/execution_agent.py.
--   Reports, Webhooks, Search: ReportService, WebhookService and SearchService of
--     backend/app/services. Base.Groups holds what GROUP BY means for the reports.
--   Browsers: the pool of browsers that runs share, of backend/app/agents/browser_pool.py.
--   Admin, Tenants, Notifications: the figures of the platform and plan changes of
--     backend/app/routers/admin.py, TenantService and NotificationService of backend/app/services.
--   Middleware: TenantMiddleware and ContentSizeLimitMiddleware of backend/app/middleware.
--   Tests: the theorems at concrete rows.
--
-- How the code is read: a UUID, a point in time, a count and an amount are natural numbers; a fresh
-- primary key comes from Db.next_id; a point in time that a method reads from the clock is an
-- argument. A text column that holds an enumeration has one constructor for each value. The text
-- of a script is a String that no operation looks into. Amounts of money are in millionths of a
-- dollar, percentages in tenths of a percent. Every loop of the modelled code runs over a list. Only the
-- client that walks through pages is written with fuel, Requirements.Walk.walk, for which one request
-- more than there are rows is enough.
--
-- What the platform supplies is a parameter: Quota.Platform holds the start of the month and of the
-- day of a point in time, and the rounding of a percentage to one digit, with the error that rounding
-- can make. What an agent class does is a parameter too, Agents.Worker.Agent: whether its browser,
-- tools and executor come up, how its run ends, the tokens that the model reports, and the rows that
-- it writes, which leave stored runs and usage rows alone. Scheduler.Cron is croniter: which
-- expressions it takes, and the next point in time, which is after the given one.
-- Requirements.TextMeasures holds what the score asks of Python's texts, Search.TextTests what the
-- search asks of them and of the database, and `cut` of Evidence is Python's slice of a text. How a
-- browser answers is an argument of the tools of Crawl, what a registered server answers one of
-- Webhooks, and the paragraphs that python-docx finds one of Requirements.Import.
--
-- Not modelled: token validation (a parameter of Middleware) and user provisioning (Azure AD), the
-- serialisation of responses, logging, the language model and the tools that ask it, the browser,
-- blob and Cosmos storage, the message bus and e-mail. Of requirements, the import of plain
-- text and PDF is left; of webhooks, the signature. The login for development
-- (backend/app/routers/auth.py), which creates tenants past the service outside production, is left
-- too. The exporters and billing are outside.
pub mod Base
pub mod Schema
pub mod Access
pub mod Scripts
pub mod Quota
pub mod Agents
pub mod Scheduler
pub mod Browsers
pub mod Cycles
pub mod Systems
pub mod Users
pub mod Requirements
pub mod Onboarding
pub mod Memory
pub mod Crawl
pub mod Evidence
pub mod Reports
pub mod Webhooks
pub mod Search
pub mod Admin
pub mod Tenants
pub mod Notifications
pub mod Middleware
mod Tests
