-- ===== src/Lib.antt =====
-- Verification of v2sudoku, a node of a proxy panel: it fetches a node's settings and users from the
-- panel, runs a sudoku server for them, and reports their traffic and presence back.
--
-- The parts of the program, and the files that model them. Paths are from the repository's root.
--   * internal/conf/conf.go, the configuration: Conf (records, `new`, `normalize`, `load_from_path`).
--   * internal/panel/client.go, the client of the panel: Panel (data), Panel/Settings
--     (`unmarshal_settings` and the helpers `first_nonempty`, `to_string_slice`), Panel/Node
--     (`normalize`, `interval_to_duration`), Panel/Client (`get_node_info`, `report_data`), Panel/Users
--     (`get_user_list`, `get_user_alive`) and Panel/Request (`new_client`, what is posted, status errors).
--   * internal/runtime/key_store.go, the keys of the users and the file that keeps them:
--     Runtime/KeyStore, with Scalar and Derive (keys that are computed), State (the store, the disk
--     and the key file) and Build (`build_mappings`).
--   * internal/runtime/counting.go, the traffic counters: Runtime/Counting.
--   * internal/runtime/embedded.go, the embedded engine: Runtime/Embedded (its state and the operations
--     under its mutex), with Runtime/Embedded/New (`new_embedded`), Serving (`handle_conn`, what becomes
--     of one connection), Lifecycle (the listener, the connections and `Close`, a step relation), Pipe
--     (`pipeConn`) and Uot (`handleUoT`), both step relations of two goroutines.
--   * internal/runtime/external.go, the engine that runs a process of its own: Runtime/External
--     (traffic, presence and events) and Runtime/External/Process (users, configuration file, process).
--   * internal/runtime/server.go, the interface of both engines: Runtime/Server. `Server` is its record
--     of operations and `Ledger` its laws, which Runtime/Embedded/Ledger and Runtime/External/Served fill.
--   * internal/runtime/config.go, the configuration of a sudoku server: Runtime/Config,
--     `config_json` of Runtime/External/Process, and `listen_address` of Runtime/Address, which also has
--     the addresses and the expected errors of connections (embedded.go).
--   * internal/controller/controller.go, which connects panel and engine:
--     Controller/Compare (`compare_user_list`), Controller/Report (`report_user_traffic_task`),
--     Controller/Monitor (`node_info_monitor`) and Controller/Snapshot (the cache of the panel's data),
--     each over any `Server`; Controller/Start (`controller_start`, `controller_close`) and
--     Controller/Debug (`sorted_user_hashes`). Controller/Conservation has the runs of a server with
--     reports under way.
--   * internal/task/task.go, periodic tasks: Task, a step relation with the loops of a task.
--   * main.go: Main, `runNode` as a step relation against an environment; Main/Program, `main` with all
--     its nodes; and Main/Log, the formatter of the log, with Text/Order for `sort.Strings`.
-- Names are the source's, in lower case with underscores: `update_users` is `UpdateUsers`. A loop is a
-- function of its own beside the operation that runs it.
--
-- How the parts interact. The controller compares the users that it has with those of the panel
-- (`compare_user_list`) and hands the changes to the engine (`update_users`). The engine keeps the
-- users, their counters, who is online, and a map from hashes of keys to users, which it rebuilds with
-- the store of keys (`build_mappings`). A connection is let in by the hash of its key
-- (`counter_for_user_hash`) and counts on the counter whose pointer it was given. The controller
-- asks for the traffic (`get_user_traffic_slice`), sends it (`report_data`) and confirms it
-- (`confirm_user_traffic`).
--
-- How state is modelled. The engine's operations run under its mutex, so each is one function from
-- state to state, and a run is a sequence of them (`Step` and `Reach`). Counters are shared between
-- the engine's map and open connections, so they stand on a heap (`Counters`): the map holds pointers.
-- The store of keys is shared between engines, so it is passed along (`Engine`, `ExternalEngine`).
-- Errors are values, and an operation that fails returns the state that it leaves. A Go map is an
-- association list with one entry a key; the order of the list stands for the order in which one
-- `range` meets the entries.
--
-- Numbers. `int` and `int64` are integers; additions, subtractions and products that the program
-- makes on traffic and durations wrap around at 64 bits (`add64`, `sub64`, `mul64`). Scalars are
-- natural numbers. Fuel stands in two places: `digits_fuel` has one round more than the number's
-- value, and each round divides by 10; `int_bytes` has as many rounds as the number's value, and each
-- divides by 256.
--
-- Parameters. SHA-256, SHA-512 and the sudoku library's crypto package (`Crypto`), `encoding/json`
-- (`Json`), viper (`ConfigFile`), resty (`Reply`), the library's `Finalize` and its recovery of public
-- keys, and its `BuildTables` (`Library` for all that the external engine calls), the time, whether
-- each call on the disk succeeds (`Disk`, `CacheDisk`), and whether each call on processes does (`Host`).
--
-- What a peer does, and what the sudoku library and the network make of it, is a parameter of a
-- connection (`Peer`), or a choice of the step relation. `handle_conn` runs a connection with nothing in
-- between; that other operations interleave with its counting is what Controller/Conservation and
-- Runtime/Embedded/Orphans are about.
--
-- Not modelled: network I/O, and the tunnel, the handshake, the multiplexing and the fallback of
-- the sudoku library, which is not part of the repository; what a process of the external engine
-- does beside the events that it prints; the reading of flags and the delivery of signals, which
-- are parameters of main.go; logging, but for the lines' format; the installation scripts.
-- `strings.ToLower` is modelled for ASCII words, since nothing else is compared with its result,
-- and a Go string is a sequence of characters (valid UTF-8).
pub mod Prelude
pub mod Dict
pub mod Text
pub mod Conf
pub mod Panel
pub mod Runtime
pub mod Controller
pub mod Task
pub mod Main
