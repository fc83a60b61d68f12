-- ===== src/Lib.antt =====
-- Helvilette: a GitOps controller for Ansible. A control plane, Othela, reads playbooks with their
-- manifests from a directory; agents on the nodes register with labels, poll Othela for a job, check
-- out its repository, run ansible-playbook and report.
--
-- Prelude: Boolean tests, results, association lists (Go's maps), the order and the walks of texts,
--   sorting. FilePath: what the program uses of Go's path/filepath.
-- Types: pkg/types/types.go, the messages Job and Report.
-- Manifest: pkg/manifest. The structs; Validation is `Validate` with its checks in their order;
--   Parser is `ParseFile` over any file system and YAML decoder; Matching is `MatchNodeGroups` and
--   `isSubset`. The Laws beside each say what it accepts.
-- Log: pkg/log, the logger and the level that the environment asks for.
-- Storage: pkg/storage. The interfaces NodeStore and ReportStore are records over an unknown state,
--   and IsNodeStore and IsReportStore are what the handlers rely on. Memory and Sqlite are the two
--   adapters, the latter over an unknown SQL engine and JSON codec; IsSqlite in Sqlite/Laws says what
--   SQLite documents of the statements. History is about any sequence of registrations.
-- Playbook: pkg/playbook. Loader has every method of the loader over a disk that is a parameter.
-- Server: cmd/othela/server.go. The state `Server` is generic in the two stores; each handler is a
--   function from the state and the request to the new state and the response. Routes is the table of
--   routes and the dispatch, Start the four constructors, Sync which job a poll is given, Stores what
--   registrations do to polls, Trace any sequence of requests, and Interleaved a poll in its steps, as
--   a state machine that other requests interrupt. Trace/Fleet is the abstract registry of nodes, with
--   a quotient for their labels. Http has the settings of the HTTP server.
-- Othela: cmd/othela/main.go, which stands before the server: RemovedFlag is `removedFlagError`, Start
--   what it starts without its playbook directory, Drain what a signal does, and Process the process
--   from its arguments to its exit status.
-- Git: pkg/git/clone.go, `EnsureRepo` over what each run of git does to the disk.
-- Agent: cmd/agent/main.go. Config is `LoadConfig` over what Settings names: the defaults, the
--   environment, the file and the flags in turn, with the source of each value, and the normal form
--   of the URL; Resolved says which source wins for each field. Display is `FormatConfig` and, in
--   Effective, `logEffectiveConfig`. Client has the calls of the control plane, Execute is
--   `ExecutePlaybook` with, in Success, the calls of a run that succeeds, Process `ProcessJob` and
--   the loop of `Run` with the last job it remembers, Events the systemd part of `Run` with
--   `handleSystemdEvents`, and Main the command itself.
-- Systemd: pkg/systemd, the client over a connection that is a parameter, and Watcher: the filter of
--   events, the bounded channel they are sent to, and in Subscription what go-systemd is asked for.
-- System: the agent of cmd/agent beside the server of cmd/othela. Each exchange of the agent is a
--   request that the server's handlers answer; Steps has what one exchange does to both, and
--   Convergence what a whole run of the agent comes to. Network puts a network between the two that
--   loses requests and responses while other nodes are served: Requests, Exchanges and Ticks have one
--   request, one exchange and one tick over it, Grown what the server keeps meanwhile, and Delivery and
--   Whole entire runs. Deployed starts from the directory of playbooks that the control plane reads, over
--   that network; Update is about a changed manifest there, and Restart about a control plane that starts
--   anew without its database.
--
-- The loader finds playbooks for the server at its start and on `GET /playbooks`; the server matches a
-- node's labels, which it keeps in a NodeStore, with the manifests that the loader parsed, and keeps
-- the reports in a ReportStore. The agent registers until it is accepted, then at each tick polls,
-- executes what it was given unless it has already done so, and reports.
--
-- Loops run over lists, so no fuel is used: the rounds of registration are a list that says at
-- which of them the process is told to stop, and what the `select` of the agent's loop receives,
-- ticks and the end of its context, is a list too. The only integers are status codes, times,
-- counts and widths. A map is a list of keys and values whose first entry for a key counts; the
-- order of iteration over Go's maps, which is random, is one order here. A handler is one step,
-- except in Server/Interleaved: `handleSync` alone has more than one access to a store. The tables
-- of nodes and of reports that one SQLite file holds are kept as two states, since no statement
-- reads both. Failures of parameters are values. In System the codecs of JSON, the router and the
-- check of URL paths are parameters; a task log, which is raw JSON, arrives without white space and
-- with HTML escaped, as encoding/json sends it; and one agent talks to the server. Only over the
-- network of System/Network requests are lost and other nodes speak; there the events are a list,
-- of losses and foreign requests, and a run has more rounds and ticks than that.
--
-- Not modelled: the messages of the log, but for the configuration and the systemd events; the
-- encoding of responses; the listener, cobra's parsing of flags and the delivery of signals, whose
-- outcomes are arguments; the release of the D-Bus connection and of the SQL handle; and deadlines,
-- which are failures of the calls they end.
pub mod Prelude
pub mod Types
pub mod Log
pub mod Manifest
pub mod Storage
pub mod FilePath
pub mod Playbook
pub mod Server
pub mod Git
pub mod Agent
pub mod Systemd
pub mod Othela
pub mod System
