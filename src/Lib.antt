-- ===== src/Lib.antt =====
-- A model of the Firecracker agent, a gRPC service that creates, stops, reports and deletes
-- microVMs, with the theorems that make it correct.
--
-- The parts, as the program has them, and the files that model them:
--   internal/firecracker/manager.go   Firecracker/State.antt (data, NewManager), Create.antt
--                                     (CreateVM), Manager.antt (the other methods)
--                                     Interleaving.antt (StopVM between its two locks, over
--                                     pointers)
--   internal/firecracker/process.go   Firecracker/Process.antt
--   internal/firecracker/jailer.go    Firecracker/Jailer.antt
--   internal/firecracker/client.go    Firecracker/Client.antt
--   internal/network/manager.go       Network.antt
--   internal/storage/manager.go       Storage.antt
--   pkg/fileutil/copy.go              FileUtil.antt
--   pkg/config/config.go              Config.antt
--   internal/agent/server.go          Agent/Events.antt (EventStream), Agent/Server.antt
--   internal/agent/handlers.go        Agent/Handlers.antt, Agent/Watch.antt and
--                                     Agent/Watch/Session.antt (WatchVMEvents, many watchers),
--                                     Agent/Service.antt (all handlers over one server)
--   cmd/fc-agent/main.go              Main.antt (run)
-- Base.antt has what they share, FilePath.antt the functions of path/filepath that they call, and
-- Examples.antt inputs on which the definitions run. The children of a file hold what is proved of
-- it, and are named for that.
--
-- A function of the source keeps its name in snake case: `StartFirecrackerProcess` is
-- `start_firecracker_process`. Strings are lists of bytes. A method is a function of the state to a
-- result and the new state (Base/Actions.antt); an error is its text, and what was done before it
-- stays done. A part of a longer function stands as a function of its own where a proof wants it,
-- with a comment on where it ends.
--
-- The operating system and the libraries are a record of answers (Host/Types.antt), each of which
-- may depend on all that was done before. Every call writes one event into a history, so the host
-- may behave in any way, and what the agent did can be read off. Which TAP devices exist and which
-- processes may be living is defined on the history (Host/Ledger.antt), and so is what is assumed of
-- `ip`; the laws of the clock are in Firecracker/Process/Waiting.antt. Each set of laws is shown to
-- hold of a host in Examples/Hosts.antt. Nothing is assumed of processes: they may finish by
-- themselves at any time, every signal may be refused, and ids may be used again. What a refused
-- signal says, that the child has finished, is in the definition of `may_live`; `alive` ends by a
-- SIGKILL that was delivered or a probe that was refused only.
--
-- The map of VMs is an association list, whose order stands for the order of `range`. The event
-- stream refers to channels by their places in a list, since two holders share one channel; a send on
-- a closed channel is the result `none`, and a panic of a handler is an answer. Numbers of the
-- configuration and of requests are integers; the model does not use their width, since the code
-- only compares and prints them. The wait for a socket runs on fuel, one round for each 100 ms of
-- the timeout and two more, which is shown to be enough for any clock that does not go back.
--
-- Not modelled: logging, gRPC and its registration, cancellation of contexts, the metrics endpoint,
-- the command line, and the width of time stamps. Requests are served one after the other, except in
-- Firecracker/Interleaving.antt, where other calls come between the sections of StopVM; the steps of
-- watchers come between requests in Agent/Service.antt, and between broadcasts in
-- Agent/Watch/Session.antt. The id of a watcher, made of the time, is an argument of the request.
pub mod Base
pub mod Host
pub mod FilePath
pub mod FileUtil
pub mod Network
pub mod Storage
pub mod Firecracker
pub mod Main
pub mod Config
pub mod Agent
pub mod Examples
