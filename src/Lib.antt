-- ===== src/Lib.antt =====
-- A model of intune-cmdb-sync, which copies the devices of Microsoft Intune into the CMDB of
-- ServiceNow: one run collects the corporate devices from Microsoft Graph, maps them to CI payloads,
-- writes these in batches, remembers in a state file what it wrote, and retires the CIs of devices
-- that have vanished from Intune.
--
-- The parts, each with the code it models (paths from src/intune_cmdb_sync):
--   Base, Text, Dict, Json: shared helpers. Texts are native strings, of which the tests of case and
--   of space read the ASCII characters; a Python dictionary is an association list in insertion
--   order; a JSON value is a tree, with decimals as a whole number and a number of digits.
--   Errors: errors.py. An exception is the `err` of a result.
--   Models: models.py, the outcome of one device and the report of a run. Models/Accounts: the
--   counters of a report agree with its outcomes.
--   State: state.py, what is remembered between runs. State/Memory: its laws.
--   Query: snow_query.py, encoded queries. Query/Injection, Query/Chunks: their laws.
--   Http: http.py. Http/Response is what the code reads of a response, Http/Backoff the waits, and
--   Http/Request the loop of `RetryingClient.request`, with Http/Request/Retries on how it ends. The
--   network is a function from the number of an attempt to what it meets; clock and jitter are
--   parameters. The loop runs `max_retries` + 1 rounds, as the source does.
--   Writers: servicenow/writers. Writers/Errors is errors.py, Writers/Types the payload and the
--   result, Writers/Ire the bulk writer of ire.py, and Writers/Instance the writer of
--   cmdb_instance.py that posts one device at a time. Writers/Instance/Threads has the threads of its
--   pool as a step relation on the counters that they share under a lock. Writers/Source is
--   discovery_source.py, where the n-th request has an answer of its own, since the insert changes what
--   is read later; Writers/Simulation and Writers/Access are access.py, the check of the way to write.
--   A writer takes the client as a function from a request to a response or an error.
--   Graph: graph.py. Graph/Batch is `_batch_get`, with `max_retries` + 1 rounds as in the source;
--   Graph/Pages follows the links of a listing for a given number of pages, with no result if there
--   are more; Graph/Devices lists the devices, with the fallback when the server refuses the filter;
--   Graph/Users reads the users of devices, and Graph/Attributes a custom attribute.
--   Users: user_resolver.py. Users/Candidates collects the users of a query, Users/Match decides
--   between the candidates of one key, and Users/Resolve goes through the keys and keeps a cache.
--   Auth: servicenow/auth.py, the cached token. Auth/Fresh: what is handed out.
--   Sync: sync.py. Sync/Collect is `_collect_devices` over a lazy stream of devices, Sync/Enrich
--   completes memory and processors, Sync/Owners finds the owners in ServiceNow, Sync/Payloads
--   is `_build_payloads`, Sync/Write is `_write_batch` and the loop over the batches, Sync/Retire is
--   `_retire_missing`, and Sync/Run is the rest of `run` and the exit code of __main__.py, with the
--   theorems in the modules below them. The report lists the very objects of the index of outcomes:
--   in Sync/Write a result also changes what the report lists already under the same id, and the
--   theorems on counters ask that no id stands twice. The store of the state is optional, as where
--   STATE_PATH is not set.
--   Client: servicenow/client.py, the requests of the Table API.
--   References: reference_resolver.py. References/Lookup looks names up, References/Names resolves and
--   creates one name, References/Device does so for the manufacturer and the model of a device.
--   Mapping: mapping.py. Mapping/Fields has the single fields, Mapping/Sizes sizes in bytes, and
--   Mapping/Values `build_values`, with the reading of dates as a parameter.
--   Report: cmdb_report.py. Report/Fetch reads pages up to `max_rows` rows, with that many rounds as
--   fuel, since every page but the last brings a row; Report/Analyze counts and finds duplicates.
--   Config: config.py and secrets.py. Config/Env and Config/Floats have the readers of environment
--   variables, Config/Graph, Config/Snow and Config/Runtime the three parts of `_build_config`, with
--   the longer checks of the second in Config/Checks, and Config/Build puts them together. The
--   environment is a dictionary; files, the parameter store, the JSON parser and the parser of floats
--   are parameters, and a file is missing, unreadable or a text, or raises what the code does not catch. A float is a decimal, an infinity, or
--   no number.
--   Witnesses: concrete runs.
--
-- Recursion is structural everywhere but in `chunked`, which has as many rounds as there are items:
-- enough, since no chunk is empty; and in Mapping/Sizes the bits of a size above 53 are counted with
-- fuel for every size of which Python makes a float. Sync/Retire compares the share of the missing
-- devices with `retire_max_fraction`, a float of the configuration, by products, without the rounding
-- of a division, which is the same while the devices times 10 ^ digits are below 2 ^ 53.
--
-- Not modelled: logging and metrics, files and S3, the httpx, msal and azure-identity libraries,
-- argument parsing, printing, and the diagnostic commands, which are input and output; the
-- reading of dates and the selectors of the CMDB report.
pub mod Auth
pub mod Base
pub mod Client
pub mod Config
pub mod Dict
pub mod Errors
pub mod Graph
pub mod Http
pub mod Json
pub mod Mapping
pub mod Models
pub mod Query
pub mod References
pub mod Report
pub mod State
pub mod Sync
pub mod Text
pub mod Users
pub mod Witnesses
pub mod Writers
