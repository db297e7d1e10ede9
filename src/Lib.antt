-- ===== src/Lib.antt =====
-- Vyapar AI: a verification of the core of the backend, app/.
--
-- The program is a FastAPI service for shops. Its services share one SQLAlchemy session per
-- request and one event bus. This library models its services:
--
-- * Inventory (app/inventory/) is the single authority for stock. `adjust_stock` locks a row, checks
--   it, writes the new quantity with one movement and commits; `stage_adjustment` does the same
--   inside a transaction of its caller. Inventory.antt has the service, Inventory/Repository its
--   queries.
-- * Order (app/order/) computes totals and moves an order along the table `TRANSITIONS`; to confirm
--   an order stages the decrement of each of its lines, to cancel a confirmed one stages the
--   restoration. Order.antt has the service, Order/Totals `compute_order_totals`, Order/Repository
--   the queries.
-- * Payment (app/payment/) opens payments at a gateway, compares the facts of the gateway with the
--   payment, and settles the payment together with the order, by the transition PAY. Payment.antt
--   has `initiate`, Payment/Settlement `verify`, `confirm_cod`, `_succeed` and `_fail`,
--   Payment/Provider the gateway as a record of functions and Payment/Mock the mock gateway.
-- * Catalog (app/catalog/) has categories and products, Customer (app/customer/) customers and their
--   addresses, with the queries in Catalog/Repository and Customer/Repository.
-- * Invoice (app/invoice/) takes the next number of a business and a year from a counter, writes the
--   snapshot of a paid order with its lines, and renders its document in a transaction of its own.
--   Invoice.antt has the service, Invoice/Numbers the sequence of numbers, Invoice/GapFree and
--   Invoice/Effects what a generation leaves.
-- * Notification (app/notification/) maps an event to a notification (Notification/Messages) and
--   writes it once per key; Notification/Listener is the handler of the event bus, which opens a
--   session of its own on the committed tables, and Notification/Wiring registers it on the bus.
-- * Catalogai (app/catalogai/) has the drafts that a model generates from a photo: Catalogai.antt the
--   service with its review and its approval, which calls `create_product` of Catalog,
--   Catalogai/Provider the provider as a record with a function and the mock provider.
-- * Auth (app/auth/) registers businesses and users, exchanges refresh tokens against the store of
--   revoked tokens (Auth/Tokens), and guards the routes (Auth/Guard). Business (app/business/) has
--   the profile, the number and the PIN of a business.
-- * Conversation (app/conversation/) answers a text message: a provider resolves it to an intent,
--   Conversation/Service gates it on the confidence and calls the handler of the intent in
--   Conversation/Handlers, which looks products up through Conversation/Resolver and composes the reply
--   of Conversation/Responses. Conversation/Mock is the rule-based provider.
-- * Analytics (app/analytics/) has the aggregates, Dashboard (app/dashboard/) composes them.
-- * Common has app/common/: exceptions, money, events, the bus; Models has the rows and the constraints of
--   the models.py files, and the queries of Models/Rows on tables as lists of rows.
-- * Database has the session: the committed tables, the tables as the open transaction sees them,
--   the number of writes sent, and the events published. A call is a function from a session to a
--   result and a session (`Exec`), since what is written before a raise stays written.
--   Database/Ends states how a call ends, Database/Steps has the rules for the steps whose end is
--   known, Database/Keeps the calls that keep the constraints, Database/Leaves those that leave a
--   part of the tables as it is, Database/Refuses those that raise before they write.
--
-- What the model takes from outside is a parameter. `Env` gives the primary key of an INSERT, the
-- clock, and how each flush and commit ends: it may fail in any way at any write, with an
-- IntegrityError or with another error. Without such a failure a write fails exactly when it breaks
-- a primary key, a unique index or a CHECK constraint of the models. A COMMIT that raises has not
-- committed, and a rollback gives back the committed tables. The gateway, the currency, the rate of
-- tax, the AI providers, the object storage, the renderer of documents, the comparison of ILIKE,
-- Unicode's case folding and lower case, the calendar and the time zone, the hash of passwords and the
-- JWTs are arguments. Reads are taken to answer. The store of revoked tokens is read and written by
-- one call at a time.
--
-- A decimal is a coefficient over a power of ten, which is exact, where Python rounds at 28 digits:
-- the columns have twelve digits and a quantity at most seven, so that no total comes near them; the
-- rate of tax is taken to have so few places that its product with a subtotal has at most 28 digits.
-- Integers are unbounded, as in Python. The only fuel is in Common/Text.decimal, which prints a
-- number n on fuel n: n has at most n digits.
--
-- Not modelled: the timestamps of rows (an aggregate over a period takes them as a parameter), foreign
-- keys (a failure of `Env` stands for them), row locks between sessions (one session is modelled, in
-- which they do not show), handlers of events that write to the session of the publisher (a service
-- records its events in order; Common/Bus has the bus by itself), product images, the coding of JWTs
-- in app/common/security.py, the clients of Redis, S3 and Gemini, logging and HTTP.
pub mod Prelude
pub mod Common
pub mod Models
pub mod Database
pub mod Catalog
pub mod Inventory
pub mod Customer
pub mod Business
pub mod Invoice
pub mod Notification
pub mod Auth
pub mod Catalogai
pub mod Analytics
pub mod Dashboard
pub mod Conversation
pub mod Order
pub mod Payment
pub mod Tests
