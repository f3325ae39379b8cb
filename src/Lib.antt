-- ===== src/Lib.antt =====
-- The synchronisation engine of GN Drive (crates/gn-drive-core), written in Rust.
--
-- The program schedules file-synchronisation jobs between cloud drives. A user draws a board: nodes
-- are places on a drive, edges are synchronisations from one node to another. A board, a flow or a
-- profile is started by hand or by its cron expression; an engine admits the run, starts the
-- transfers and reports on them through an event bus.
--
-- Cron (crates/gn-drive-core/src/cron.rs): a six-field schedule and the time at which it is next due.
--   Cron.Field       `Field`: a set of values below 64 as the bits of a number, `mask_range`
--   Cron.Parser      `parse_field`, `parse_bound`, and the errors of the parser
--   Cron.Schedule    `CronSchedule::parse`, the macros and `@every`, `normalize_cron`
--   Cron.Calendar    the dates and times of the crate chrono, as an interface
--   Cron.Next        `next_naive_after` and `day_matches`
--   Cron.Samples     a concrete calendar and concrete programs, for the tests in Cron.Tests
-- A text is a list of code points (Common.Text). A function that loops over the comma-parts of a
-- field, or over the words of an expression, is a recursion on the list of them. The loop of
-- `mask_range` over u32 values is `mask_from`, on hi + 2 units of fuel: from round to round the value
-- only grows, or, with a step that wraps around, only falls, until it is past hi. The loop of `next_naive_after` is `search_from`, on `enough limit`
-- units of fuel: each round moves to a later second, and there are fewer seconds up to the end of
-- the last year searched. `trailing_zeros` counts over the 64 bits of the mask. A year is a natural
-- number, and the time zone layer (`next_after`, `next_n_after`, `next_from_now`) is left out: it is
-- chrono's local-time resolution around `next_naive_after`. The floating-point numbers of `@every` are
-- the interface `F64` of Cron.Schedule. Lower-casing is that of ASCII letters.
--
-- Board (crates/gn-drive-core/src/board_engine.rs, crates/gn-drive-core/src/models.rs): the order in
-- which the edges of a board run, and the runs.
--   Board            `BoardNode`, `BoardEdge` and the error of the engine, with its cases for a cycle
--   Board.Layers     `topo_layers`: layers of edges that may run side by side
-- The hash map of in-degrees is an association list (Common.Maps), the array of `pending` flags is the
-- list of the edges whose flag is set, and `sort_by` is an insertion sort (Common.Sort), which gives
-- the same list as any stable sort. The `while` loop is `layers_from`, on one unit of fuel for each edge:
-- a round that places no edge ends the loop with an error, so no more rounds can run.
--   Board.Run        `run_board` and `run_edge`: what the threads of a run observe, the cancellation token
--                    and the outcome of each call of the client, is a record `World`
--   Board.Registry   the runs of an engine and their threads: `execute`, `stop`, `status`, `attach`, `detach`
--                    and the end of a thread, in any order, as a list of events
-- `run_board` gives a report: the edges whose threads were started, in their order, and its result. The
-- threads of one layer are joined before their results are read, so their interleaving shows only in
-- the `World`. An engine's lock makes each operation on its runs one step. The fresh identifier of a run and
-- the answer of the store are arguments of `execute`.
--
-- Hub (crates/gn-drive-core/src/runtime_hub.rs): what the user interface shows of the flows' runs, built from
-- the events of the bus (crates/gn-drive-core/src/event_bus.rs).
--   Hub              `on_event`, `apply_flow`, `apply_sync`, `append_log`, `split_busy_key`, `reset`, `forget`
--   Hub.Logs         the logs as the end of a history; Hub.Bounds: their bounds
-- The time of an event is an argument. The hub's revision is counted without a bound.
--
-- Bus (crates/gn-drive-core/src/event_bus.rs): the events, and how they reach the subscribers.
--   Bus              the events and their topics
--   Bus.Mailbox      the loop of `publish` that sends one event into a mailbox of 64 places
--   Bus.Router       `subscribe`, `publish`, `recv`, `Subscriber::cancel` and `close`, as steps on one state
--   Bus.Router.Delivery, Bus.Router.Topics, Bus.Router.Wanted: what a subscription is sent and receives
-- A call of `publish` copies the list of subscribers under the lock and sends to them one by one after it:
-- it is a job, of which each send is a step, so that other steps come in between. The send loop has one unit
-- of fuel for each queued event and one more: each round but the last drops an event. Identifiers of
-- subscriptions are natural numbers. The channels of the crate crossbeam are lists.
--
-- Sync (crates/gn-drive-core/src/sync_engine.rs): the tasks of the engine that runs single synchronisations.
--   Sync             the registry of tasks as steps: `start` and the two halves of `stop`; marking a key busy
--                    and admission, the two halves of `start_with_profile`; `stop_sync`, what `run_sync` makes
--                    of the client's answer, `Finish::drop`, a round of `wait_task`
--   Sync.Requests    the checks of `start_sync` and `start_path_sync`, and the client's configuration
--   Sync.Errors      `sanitize_rclone_err`, `truncate_string` (crates/gn-drive-core/src/rclone/stats.rs)
--   Sync.Exclusion   threads of one busy key; Sync.Restart: a stop and a start in between; Sync.Waiting
-- A status is a constructor in place of the text that the code keeps. The loop of `wait_task` is one round of
-- it: it waits for a signal between rounds. A fresh task identifier is an argument of admission.
--
-- Profile and Rclone (crates/gn-drive-core/src/models.rs, flow_engine.rs, sync_engine.rs, rclone/types.rs,
-- rclone/client.rs): from the `sync_config` of a flow's operation to the command line of rclone.
--   Profile          `Profile`, `ProfileFlags` and `profile_flags`
--   Profile.Config   JSON values, `bool_v` and its siblings, `profile_from_sync_config`
--   Rclone           `RcloneAction`, `SyncConfig`, `profile_to_flags`, `resolve_endpoints`, `pending_seed_path`,
--                    `build_args`
--   Rclone.Flags     a reader of command lines, in lockstep with `profile_to_flags`; Rclone.Given: what it finds
--                    for one flag; Rclone.Reading: the flags
--                    read back; Rclone.Endpoints
--   Rclone.Options   the flags with their keys; Rclone.Sources: what the keys say of a setting; Rclone.Passed
-- f64 and the numbers of a JSON text are the interface `Numerics`. A signed number is a `ℤ` over natural
-- numbers, which the code reads only with the bounds of i64.
--
-- Flow (crates/gn-drive-core/src/flow_engine.rs, models.rs): flows, which run their operations in sequence.
--   Flow             `Flow`, `FlowOperation`, `resolved_action`, `compose_path`, and `run_ops`: what a run observes is
--                    a record `World`, and it gives a report of its requests, publications and final status
--   Flow.Errors      the texts of errors, `friendly_task_err`
--   Flow.Outcomes    how a run may end, by the answers of its `World`; Flow.Order: that it does
--   Flow.Directions, Flow.Endpoints, Flow.Commands: from an operation to the command line
--   Flow.Registry    `begin`, `stop`, `status`, `statuses` and the end of a run, with Threads and Statuses
-- A publication stands for the event of `flow:execution` and its mirror on `board:execution`.
--
-- Update (crates/gn-drive-core/src/self_update.rs): parts of the program's update of itself.
--   Update           `is_newer`, and `atomic_swap` over a map of files and the outcomes of its file operations
--   Update.Order, Update.Swap: the order of versions, and what a swap leaves
--   Update.Release   `fetch_release` and `pick_assets`
--   Update.Pipeline  `update`: the downloads, `verify_digest`, `extract_binary`; with Verified
-- What the network answers, what tar leaves and how the file operations end is a record `World`. The loop of
-- `is_newer` has as many rounds as the longer of the two versions has numbers.
--
-- Auth (crates/gn-drive-core/src/auth.rs, argon2id.rs, crypto.rs): the master password.
--   Auth.Password    the encoded hash: `create_hash`, `verify`, `extract_salt`, `derive_key`; with Reading
--   Auth.Files       the config files and their encrypted copies: `encrypt_file`, `encrypt_config_files`,
--                    `recover_from_crash`; with Sealing (one file), RoundTrip, Recoverable, Sessions and Restores
--   Auth.Service     the state and what it reaches; Auth.Unlock: `setup_password` and `unlock`; Auth.Lock: `lock`,
--                    `suspend`, `change_password`, `remove_password`, a start (`new`)
--   Auth.Unlock.Calls: calls whose sleeps overlap; Attempts, Ending: the limit on them; Auth.Lock.Return, Setup
-- Argon2id with base64, and AES-GCM, are the interfaces `Argon2` and `Cipher`, whose laws are Argon2Laws and
-- CipherLaws; Auth.Toys has small ones that keep them. How each file operation ends, the random salt and
-- nonces, the answers of the key store and the time are arguments (`Io`, `Outcomes`); a write is atomic, and a
-- stop between two file operations is an outcome in which the later ones fail. `unlock` is `ask`, up to its
-- sleep, and `wake`. A time is in milliseconds, the end of a lockout in seconds, and a count of failures is a
-- natural number. The loops over the two config files are recursions on the list of their names.
--
-- Common holds what these share: tests into Bool (Common.Tests), equality tests as an interface
-- (Common.Eq), hash maps (Common.Maps), counts by their keys (Common.Held), lists (Common.Lists), the bits of a
-- number (Common.Bits), texts (Common.Text), decimal numerals (Common.Text.Decimal), answers of fallible
-- operations (Common.Result) and sorting (Common.Sort).
--
-- Not modelled: the schedules, history and progress events of the sync engine, the HTTP client,
-- the store's queries, the remote procedure calls and the statistics parser; the subprocess of the
-- synchronisation tool, the database, the file system, the network and the user interfaces, which do input and
-- output around the parts above; the threads and locks themselves. Where an error's text is not read, the
-- error is a data constructor.
pub mod Auth
pub mod Common
pub mod Cron
pub mod Board
pub mod Bus
pub mod Sync
pub mod Flow
pub mod Update
pub mod Rclone
pub mod Profile
pub mod Hub
