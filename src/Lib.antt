-- ===== src/Lib.antt =====
-- LinSight: a daemon that samples sensors for its clients, and the protocol between them.
--
-- Each file names the code that it is about. The parts, with paths from the root of the repository:
--
-- Base: natives, lists, association lists (`Dict`) and their laws. A hash map or a B-tree map of the
--   program is a `Dict`: `lookup` finds the first pair, `insert` replaces in place. Text is a list of
--   code points.
-- Core (crates/linsight-core/src/types.rs, hardware.rs): samples, identifiers, device keys,
--   nicknames and labels.
-- Scheduler (apps/linsightd/src/scheduler.rs): Rate is the rate arithmetic of `subscribe`, over an
--   interface `Floats` of the operations of `f32`, with the facts of IEEE 754 in `IsIeee`. Table is
--   the table of subscriptions, Counts its invariant and the counts of tokens. Tick is the pair of
--   `tick_plan` and `tick_commit`, with the back-off of failing sensors and the parking of static
--   ones. Sums of a `u64` wrap, as in a release build; `saturating_add` and `saturating_mul` stop.
-- Messages (crates/linsight-protocol/src/messages.rs): the messages of both sides.
-- Frame (crates/linsight-protocol/src/frame.rs): frames over a source of bytes that ends with an end
--   of file or an error, and the wait of a client for its response. The encoding of a message is the
--   work of the crate postcard: a `Codec`, with what the code relies on in `IsCodec` and `Tagged`.
-- Session (apps/linsightd/src/transport/unix.rs): the ledger of subscriptions of each client. Daemon
--   is a step relation whose steps are the critical sections of the threads of the daemon, so that
--   its traces are the interleavings that the locks permit. A panic ends a thread outside the
--   relation: its steps are those that return.
-- History (apps/linsightd/src/history.rs): the retention setting, in the syntax of durations of
--   crates/linsight-core/src/time.rs (Core/Durations), and the gate of the prunes. A prune is the cutoff
--   that it hands to the database; the tables themselves are not modelled.
-- Plugins (apps/linsightd/src/plugin_host.rs, crates/linsight-plugin-sdk/src/manifest.rs, plugin.rs): the
--   registration of plugins and the owners of sensors. Loader takes the built-in plugins and the files
--   of the directories in turn, and records the calls that each instance gets; what the files and the
--   plugins do comes in by `Files`. Listing and Owners are the sensors' owners, Checks the checks of a
--   manifest, Calls, Live and Stages the account of the instances, Loaded what holds in the end.
-- Dashboards (apps/linsight-gui/src/qobjects/dashboards_model.rs): Slugs is the slug of a name, Files the
--   operations on the files of the dashboards. The directory is a dictionary, and what is written to a
--   file is read back from it: the encoding is the work of the crate serde_json. Named, Fresh, Commands
--   and Renames are what the operations do to the files, Long the names that are too long.
-- Workspace (apps/linsight-gui/src/workspace.rs): the connection of the desktop application, each operation
--   with whether its writes go through and what it is answered. A reconnect is two steps, its replay
--   and its commit; each other operation is one, and operations at once are not modelled. Replay and Commands follow what a
--   daemon was told, Served and Delivered join it to the daemon's Session, where the scheduler may
--   change between two messages; Supervised is the watch over the connection.
-- Alerts (apps/linsightd/src/alerts.rs): Engine is the state under the engine's lock, with one function
--   for each critical section: `observe`, `apply_eval_result`, `upsert_rule`, `delete_rule`. What an
--   expression evaluates to is the work of the crate evalexpr and comes in as an outcome. Firing is
--   the alarm of one rule over a run of evaluations. Split is `shell_split`, Webhook the vetting of
--   URLs over a parameter that parses addresses, Notify the targets of a rule.
-- Registry (apps/linsightd/src/hardware.rs): the registry of devices. Build is what the manifests make
--   of it, Labels and Renames the nicknames laid over it, Snapshot its order.
-- Outbound (apps/linsightd/src/transport/unix.rs): the clients' outbound queues. Deliver is the
--   fan-out of samples onto them, Drain the pump of one client.
-- Sampling (apps/linsightd/src/transport/unix.rs): one batch of `SamplingPool::sample`, over the results that
--   arrive before the deadline. The worker threads are not modelled: whether a job can be sent is a
--   parameter. Balance is the account of a batch, Once what it gives for the plan of a tick.
-- Requests (apps/linsightd/src/transport/unix.rs, and what it calls of scheduler.rs and alerts.rs):
--   `handle_request` over an interface `Env` of the files, the database, the plugins, the evaluator
--   and the socket, with `Seconds` for what durations need of `f64`. Info, Nickname, Rules and Settings are the handlers, Configs the alert rules in
--   their file with their durations, Dispatch the whole and its theorems, Breaking the requests that
--   panic. A request is one step here: the locks that a
--   handler takes and releases in between are not modelled.
-- Prometheus (apps/linsightd/src/prom.rs): the text of a scrape, whose labels Labels and Lines read back,
--   and Request the reading of a request, over the chunks that the socket returns.
-- Sensors (crates/linsight-sensors/cpu/src/proc_stat.rs): ProcStat is the parser of /proc/stat.
-- Loops are structural where the code walks a list. Four run on fuel: `skip_rounds` and
-- `fit_rounds`, on the length of what they copy, `rounds`, on the bytes left, and `read_headers`, on
-- the bytes that the headers may have; for each a theorem shows that the fuel is enough. A source of
-- frames is finite: a peer that sends frames without end is not modelled.
--
-- The order of a hash map is not modelled beyond the order of the pairs. The clock, the socket, the
-- threads, the logs and the files are not modelled, nor are the plugins: a sampled value comes in as
-- the result that the plugin host returned.
--
-- Tests holds one run of each theorem that has hypotheses, on concrete input.
pub mod Base
pub mod Core
pub mod Scheduler
pub mod Registry
pub mod Messages
pub mod Frame
pub mod Session
pub mod Outbound
pub mod Sampling
pub mod History
pub mod Plugins
pub mod Dashboards
pub mod Workspace
pub mod Alerts
pub mod Requests
pub mod Prometheus
pub mod Sensors
mod Tests
