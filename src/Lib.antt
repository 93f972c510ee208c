-- ===== src/Lib.antt =====
-- ArchiveBox saves web pages: a crawl holds a list of URLs, a snapshot is one URL of a crawl, and
-- runners advance both through a durable queue, the tables of the database. This library models that
-- core and proves what keeps it correct.
--
-- Queue (archivebox/workers/models.py) is `ModelWithQueue`, the mixin of every work row: a `Row` has
-- a key, a status, `retry_at` and the columns of its model, and a method takes the object as it was
-- loaded, possibly stale, and the table. Its writes are guarded updates, one `UPDATE ... WHERE` each,
-- so Queue.Table has the update, the count and the look-up by key. Queue.Update, Queue.Claims,
-- Queue.Pauses and Queue.Order are about `safe_update`, `claim_for_worker`, `pause` with `resume`, and
-- `get_queue`.
--
-- Db has the tables of crawls and snapshots, which the lifecycles share. Crawls.Lifecycle is the
-- lifecycle of `Crawl`, Crawls.Urls its list of URLs, Crawls.Filtering its filters, Crawls.Limits its
-- limits, and Crawls.Seeding and Crawls.Discovery create its snapshots, from the list and from what
-- parsers discover (archivebox/crawls/models.py). Snapshots is the lifecycle of `Snapshot`
-- (archivebox/core/models.py). Services has the event handlers of
-- archivebox/services/crawl_service.py and two operations of archivebox/services/runner.py, and
-- Runner the turns that a due crawl and a due snapshot (Runner.Turn) get there, with the maintenance of
-- a snapshot; what a turn calls and the tables do not hold is a record of arguments. Runner.Pending is
-- one pass of the scheduler over its nine queries, up to the first turn with progress: Runner.Pending.Order
-- is about the first row of a query, Runner.Pending.Queries is the queries as a table, apart from the
-- code, Runner.Pending.First is about the rows that get a turn, and Runner.Pending.Idle and
-- Runner.Pending.Quiet about a pass with nothing to do. Runner.Waiting is about the snapshots that a
-- crawl waits for, and Runner.Visible about the turn that makes it wait. These parts interact
-- through the tables only: a crawl that is cancelled wakes its snapshots, and the runner then
-- reconciles each with its crawl. Snapshots.Plugins is the request for plugins, whose guarded update is
-- tried eight times against other writers, an argument that may change the tables between the read and
-- the write. Services.Reachable has these writes as steps, each on an object
-- that may be stale: pause, resume, cancel, seal, start, claim, the reconciliation, the events of a
-- crawl and the deferral. Requeues are not among them: queueing a sealed snapshot again reopens it.
--
-- Locks (archivebox/crawls/locks.py) is the lock that serialises the work on one crawl or binary: a
-- registry of lock states that threads share, a reentrant thread lock in each, and the lock of a file
-- that processes share. Locks has the state and a relation of steps between the points at which another
-- thread can run, at one key of the registry; Locks.Invariant, Locks.Changes and Locks.Moves are its
-- invariant, and Locks.Mutex is the abstract lock. After a fork the registry is emptied; the threads are
-- those of a process that does not fork.
--
-- Recovery (archivebox/core/recovery_util.py) is what a runner repairs in the tables when it takes over:
-- Recovery.Rows and Recovery.Changes have the updates row by row, Recovery.Woken and Recovery.Visible are
-- about the rows that the queues show again, and Recovery.Statuses, with Recovery.Uploads, about what is
-- written.
-- Ranges (archivebox/misc/serve_static.py) is the answer to a request for a part of a file. Routes
-- (archivebox/core/routes_util.py) has the hosts of the web interface, a name in lower case and a port
-- each: Routes.Suffix is about the subdomain of a request, Routes.Roles about the labels that are
-- stripped, and Routes.Redirects about the redirects of a login, where what `urlparse` reads is an
-- argument. Routes.Netloc has the hosts as texts, with what `urlparse` does to an ASCII text after `//`,
-- and Routes.Netloc.Printing, on Routes.Netloc.Characters, is about a host that is printed and read
-- again; what it reads of an address in brackets is an argument.
--
-- Ownership (archivebox/services/snapshot_service.py) is the record of the runs that own a snapshot,
-- with the renewal of a lease and the completion of a run.
--
-- Permissions (archivebox/core/permissions.py) is who may see a snapshot, and Retention the sweep of
-- expired rows of archivebox/base_models/models.py.
--
-- Admission (archivebox/services/resource_admission.py) decides how many snapshots run at once.
-- Search (archivebox/search/) has the modes, the backends that a search asks and the ids that it
-- yields; Search.Ranking is the search over snapshots. Text has what they use of Python's `str`, on
-- lists of code points; Base has the shared names. Examples has the theorems at concrete inputs.
--
-- Each read of the clock is an argument of its own, in microseconds; a number is natural and has no
-- bound, as in Python. Loops are recursions over the lists that they read, or over the attempts that the
-- code allows; the iterator of Ranges has fuel, and one round more than the file has bytes is enough,
-- since each round reads a byte or ends; the digits of a number have fuel, and the number is enough,
-- since each round divides it by ten; the loop of Routes that strips labels has fuel, and the length of
-- the name is enough, since each round takes a label and its dot off. What the operating system, the
-- database functions, plugins and file operations answer is an argument.
-- The primary key of a table is unique. One statement of SQL is one step.
--
-- Not modelled: files and their rendering, the asynchronous scheduling of hooks, processes and
-- signals, the command line, web pages and the API, configuration, and the ORM itself.
mod Base
pub mod Text
pub mod Queue
pub mod Db
pub mod Crawls
pub mod Snapshots
pub mod Services
pub mod Admission
pub mod Search
pub mod Examples
pub mod Locks
pub mod Ownership
pub mod Permissions
pub mod Retention
pub mod Runner
pub mod Recovery
pub mod Ranges
pub mod Routes
