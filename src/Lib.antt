-- ===== src/Lib.antt =====
-- PropChain back end: what its core services do, modelled from their TypeScript sources.
--
-- The back end is a NestJS application. A request reaches a service method, which reads and writes
-- tables through Prisma and calls other services. A method is modelled as an action on a store: it
-- takes the store to a result, a value or an HTTP exception, and to the store that it leaves; what was
-- written before an exception stays written (Base.Handler). The tables are an interface with the
-- documented behaviour of each call of Prisma as a law (Table), which a list of rows meets
-- (Table.InMemory); every theorem holds for any tables that meet it. The time, the identifiers that
-- the database generates, and the answers of outside services are arguments of the calls.
--
-- The modules, and the code that each one is about:
--   Base: lists under Boolean tests, the actions and their results.
--   Table: the calls of src/database/prisma.service.ts.
--   Transactions: src/transactions and src/commissions. Status holds the life cycle of
--     transaction-status.constants.ts; Service the methods of transactions.service.ts with the two
--     calls of timeline.service.ts and transaction-audit.service.ts; Escrow its updateEscrow;
--     Commissions, Cancellation and Disputes the services of these names. They share one store.
--   SupportTickets: src/support-tickets/support-tickets.service.ts.
--   Sessions: src/sessions/sessions.service.ts; Device is what it reads from a user agent.
--   Auth: LoginRateLimit is src/auth/login-rate-limit.service.ts and RateLimit is
--     src/auth/rate-limit.service.ts with the limits of rate-limit.config.ts. The methods of
--     auth.service.ts are in Tokens, TwoFactor (with two-factor.service.ts), Passwords (with
--     password.utils.ts), Login, ApiKeys (with api-key-analytics.service.ts) and Registration, over
--     the rows and the one store of Rows, which holds the store of Sessions. Interfaces has what they
--     use of jsonwebtoken, bcrypt and crypto, and of the fraud service. Retry is retry.util.ts.
--   Fraud: src/fraud/fraud.service.ts, in the same store: the alerts, Detection with what a login and
--     a refresh raise, and Review. Detection.Hooks shows that it meets the interface of the login.
--   Properties: the status of a property, src/properties/property-status.constants.ts with
--     transitionStatus and expireProperties of properties.service.ts.
--   Webhooks: src/webhooks/webhooks.service.ts; UrlValidator is url-validator.util.ts.
--   AccountDeletion: src/users/account-deletion.service.ts.
-- A method has the name of the source in snake case (createSession is create_session), as have the
-- fields and the constants; the rows that a method writes are functions of their own (moved_row).
--
-- Bounds: times and amounts are natural numbers. No model needs fuel: each loop goes over a list, but for
-- the retries, whose loop goes over the attempts that are left. Where the source compares a time with
-- one in the past, the model adds to the other side.
--
-- Not modelled: listings with their pages, statistics, the texts of notifications, mails and log
-- lines, failures of the database, and calls that run at the same time on one row. The other parts of
-- the back end (the listings of properties, search, payments, reports) are not modelled; computations on
-- floating-point numbers cannot be.
pub mod Base
pub mod Table
pub mod Transactions
pub mod SupportTickets
pub mod Sessions
pub mod Auth
pub mod Webhooks
pub mod AccountDeletion
pub mod Fraud
pub mod Properties
