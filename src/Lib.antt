-- ===== src/Lib.antt =====
-- The backend of a community site: users, boards (posts) with files, administrators. FastAPI handlers
-- (app/api) resolve who the caller is (app/core/security.py), call a service (app/services), and
-- the service sends SQL (app/models) to PostgreSQL, keeps codes and refresh tokens in Redis and files
-- on the disk. Four hourly jobs (app/core/scheduler.py) remove what was marked as deleted.
--
-- How the parts are modelled:
-- - Common: names of the libraries, Boolean tests, and tables as lists of rows (update_where,
--   delete_where, select, find_row, sum_where for UPDATE, DELETE, SELECT, SUM with a WHERE).
-- - Db: the rows of alembic/versions/ as records. A query is a function of NOW() and the tables.
-- - Models: app/models/{user,boards,files,admin,audit_log}.py, a function for each query.
-- - Exec: a service is a function from the state of the server (tables, identity sequences, Redis, disk,
--   sent mails, clock) to a result, a value or an error, and the next state. A transaction undoes
--   the writes to the tables when its body raises, and nothing else. Exec.Rules has the proof rules.
-- - Security: app/core/security.py. bcrypt, the JWT library, SHA-256, str and int are the parameters
--   Bcrypt and Tokens, records of functions and of the laws that are relied on.
-- - Services: app/services/{boards,files,user,auth,admin}.py, whole functions, with the guards and the
--   writes in the order of the source. Children hold the proofs.
-- - Models.Boards.Listing, Services.Boards.Listing: the lists of boards page by page, with the joins, the
--   orders and the windows of the SQL, and the groups by author. Common has the windows (Pages), the
--   sort (Order), and the gathering under keys (Groups). Services.Boards.Views has the view of a
--   board and the cache of the popular boards. Models.Admin.Listing and Services.Admin.Listing have the
--   administrator's lists.
-- - Schemas: the validators of app/schemas/ on texts, and the request bodies (Forms). Stripping and
--   regular expressions are written out; which characters are spaces and decimal digits is the
--   parameter Unicode, EmailStr a parameter of the forms.
-- - Api: the requests that change state and the jobs as events, and sequences of them; Api.Reading has
--   the requests that only read.
-- - Consistency: the invariant of boards and files, and what each kind of write does to it.
-- - Examples: a small database and stand-ins for the parameters.
--
-- What the model fixes: a timestamp is a number of microseconds in one time zone, and NOW() and
-- datetime.now are one clock, constant during a request. Each event runs alone: interleavings of two
-- requests are not modelled. The names of errors stand for the texts of details and messages,
-- and the audit log has no detail. user_index, total_file_size and view_count are never NULL. Foreign
-- keys other than the cascade from boards are not modelled, since users are never deleted from the table.
-- The order of texts in ORDER BY is the parameter Collation. ILIKE and the order in which each
-- query of a search meets the rows, and so gives those that tie, are the parameter Search; the
-- order in which the five popular boards come, which the SQL leaves open, is an Arrangement of the
-- request. A page or a limit of 0 does not reach the services. Every number is unbounded; the
-- columns are int4 and int8. str.lower is modelled on ASCII. A write to the disk succeeds; which
-- removals fail, whether a mail is sent, and what is drawn at random (codes, salts, temporary
-- passwords, file names) are arguments. The function require_password and a few others name code
-- that the source repeats. No function needs fuel: every loop runs over a list or a text, or down
-- from the number of pages.
--
-- Not modelled: rate limits, cookies that are set, logging, the texts of messages, the response models
-- that only repeat columns, and the set-up of FastAPI, pools and Redis. The handlers' bounds on
-- path parameters are modelled for the requests that only read.
pub mod Common
pub mod Db
pub mod Exec
pub mod Models
pub mod Security
pub mod Schemas
pub mod Services
pub mod Api
pub mod Consistency
pub mod Examples
