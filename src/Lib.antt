-- ===== src/Lib.antt =====
-- Finna: a service that collects cloud costs, finds wasted cloud resources and logs users in through
-- OpenID Connect. This library models the core of its Python code (backend/app) and proves what makes
-- it correct.
--
-- The parts and how they meet:
-- - Python: decimals, exceptions as values (`Try`), and JSON values with the operations that the
--   program uses on them. What the interpreter computes (number parsing, `str` of a value, SHA-256,
--   `strptime`) is the parameter `Builtins`.
--   `Python/Dicts` has assignment, `update` and comprehensions of a dict of JSON values. `Web` is what a
--   handler gives back.
-- - Database: backend/app/api/queries/base.py over a connection with an open transaction. The pool's
--   `putconn` is a parameter; `RollsBack` is its documented treatment of a returned connection.
--   `Pool` has the retries of `get_connection` in backend/app/api/db.py.
-- - Wastage: backend/app/wastage. `Finding` and `Rules` are rules/__init__.py and rules/azure.py, one
--   function for each rule; `Pricing` is pricing.py; `Tables` has the tables of
--   alembic/versions/006_resource_wastage.py and the SQL statements of runner.py as functions of them;
--   `Runner` is runner.py: `run_scan` applies the rules of the registry to the rows of an inventory,
--   upserts the findings, resolves the stale ones and closes the record of the run. `Queries` and
--   `Routes` are the statements and handlers that change a finding or start a scan.
-- - Auth: `Oidc` is backend/app/api/oidc.py, its stores and caches as explicit state: `Discovery`,
--   `Verify`, `States` and `Devices`. `RateLimit` and `Claims` are `_check_rate_limit`,
--   `_apply_claim_mappings` and the checks of `oidc_callback` on the claims, of
--   backend/app/api/routes/oidc_auth.py; `Users` is the table `auth_users`, `Login` the login and its
--   callback, and `Device` the device flow of backend/app/api/routes/oidc_device_auth.py.
--   The network and the JWT library are parameters.
-- - Config: the configurations of cloud providers. `Encryption` is utils/encryption.py, with Fernet, JSON
--   and base64 as the parameters `Crypto`, `Codecs` and `Keys`; `Store` is the table `cloud_config` with
--   its statements and what backend/app/api/db.py makes of a row; `Routes` and `Cli` are the handlers of
--   backend/app/api/routes/config.py and the registrations of backend/app/api/routes/auth.py. `Hidden`,
--   `Steps` and `Lost` are about what the table holds after requests in any order.
-- - Costs: extractors/litellm_cost.py over the record of models/__init__.py. `Llm.Pages` reads the pages of
--   the spend log, `Llm` makes records of the rows, `Llm.Insert` stores them in batches and writes the row
--   of the run. `Rates` is extractors/exchange_rates.py from the parsed feed on, with extractors/common.py.
-- - Extraction: backend/app/api/runner.py. `Log` is what the monitor makes of a subprocess, `Runs` has
--   the operations on the table, the registry and the monitors, and `Steps` the orders in which
--   requests, monitors and the shutdown interleave.
--
-- State is passed explicitly; a fault of the database is a value of a parameter (`Faults`, or a flag of
-- the operation), so that every error path is covered. Times are natural numbers of microseconds, or
-- of seconds where the code counts seconds. All loops but three are structural recursion, over the rows, the
-- rules or the entries of a table. The batches of an insertion have the number of records as fuel, which is
-- enough as no batch is empty; the pages of the spend log, which the proxy decides on, have fuel as an
-- argument and a theorem on how much is enough; the search for the places at which a quotient has 28 digits
-- has more fuel than the divisor has digits.
--
-- Not modelled: the environment of an extractor subprocess (`_build_env_from_config`, part of the
-- parameter `launch` together with `subprocess.Popen`), case folding outside ASCII, the age of a time to come (0 here, negative in the code), the concurrency of
-- two scans, the waits between attempts, the rounding of a product of prices to 28 digits, numbers that are not finite, negative counts of tokens, the
-- cost extractors of the clouds, the routes of costs, of projects and of the test of a configuration.
pub mod Prelude
pub mod Python
pub mod Database
pub mod Web
pub mod Wastage
pub mod Auth
pub mod Config
pub mod Costs
pub mod Extraction
