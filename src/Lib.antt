-- ===== src/Lib.antt =====
-- graphserv: a server through which TCP and HTTP clients share graph cores. A core is a child process
-- that is driven over pipes. The server reads lines from its clients; a line is a server command, which
-- it executes, or a command for the core to which the client is connected, which it queues. It sends one
-- command at a time to a core, and gives the core's status line and data set to the client that sent
-- the command. A client's level decides which commands it may use; the password authority raises it.
--
-- Parts and files (paths from the repository's root):
--   Access        src/auth.h: enum AccessLevel.
--   Status        src/const.h and src/utils.h: CommandStatus, statusMsgs and getStatusCode.
--   Descriptor    src/utils.h: setNonblocking and closeOnExec.
--   Writer        src/utils.h: class NonblockWriter. Writer.Stream has the bytes that the peer sees.
--   Auth          src/auth.h: class PasswordAuth; Auth.Split has splitLine and fgets, Auth.Files has
--                 readCredentialFiles. Theorems: Auth.Split.Fields, Auth.Split.Lines, Auth.Files.Levels,
--                 Auth.Files.Hashes, Auth.Authorize.
--   Core          src/coreinstance.h, and flushCommandQ and lineFromCore of src/main.cpp; Core.Entry has
--                 CommandQEntry and LineRecvQ, Core.Launch has startCore. Theorems: Core.Queue (one
--                 flush), Core.Lines, Core.Multiplex (any interleaving of a core's events),
--                 Core.Progress (a core that answers), Core.Started, Core.Continuity,
--                 Core.Exchange (what one forwarded command does to the queue).
--   Session       src/session.h: the state of SessionContext and HTTPSessionContext.
--   Server        src/servapp.h: class Graphserv. Server.Reply has what sessions write to their
--                 clients, Server.Forwarding has forwardToCore, Server.Dispatch has processCommand and
--                 lineFromClient, Server.Http has lineFromHTTPClient, Server.Loop has the events of
--                 mainloop_select, Server.Loop.Sets the descriptors for select, Server.Loop.Round whole
--                 rounds and the loop, Server.Libevent the
--                 callbacks of mainloop_libevent, and Server.Commands has ServCli and its commands
--                 (src/main.cpp); Server.Commands.Debug has what the server does not use.
--                 Theorems: Server.Reply.Http, Server.Processed (what a line can change),
--                 Server.Processed.Endings (which lines the server does not survive), and from it
--                 Server.Loop.Endings (which bytes and rounds it does not survive),
--                 Server.Commands.Table,
--                 Server.Instances (the map of instances), Server.Loop.Safety and its users up to
--                 Server.Loop.Reach (any rounds), Server.Loop.Isolation and Server.Loop.Delivery (which
--                 sessions bytes reach), Server.Loop.Framing and Server.Libevent.Framing (how they are cut
--                 into reads), Server.Loop.Removal, Server.Loop.Accepting, Server.Loop.Signals,
--                 Server.Libevent.Reach (any events of the other loop),
--                 Server.Libevent.Stalled, Server.Dispatch.Replay,
--                 Server.Dispatch.Overtaking, Server.Forwarding.Submit, Server.Names,
--                 Server.Http.Uri.Encode.
--   Startup       src/main.cpp: main and its command line, the mask of log messages, and run and
--                 openListenSocket of src/servapp.h; Startup.Flog has flog of src/utils.h. Theorems:
--                 Startup.Logging, Startup.Flog, Startup.Listening.
--   Outcome       how a call ends: it returns, fails, exits, or its behaviour is undefined; and what is
--                 said of the end of a chain of calls.
--   External      one record with everything that the program uses and does not implement: the
--                 operating system, libc, and the parts of GraphCore (clibase.h, corecommands.h).
--   Prelude       shared names, tests, lists, association lists for the maps, character classes.
--   Tests         a concrete system and runs on it.
--
-- How the state corresponds. A class is a record with its fields; a map is an association list; a text
-- is a list of character codes. A function that is given a reference to a session works on a Ctx, the
-- server together with that session, and Server.Loop takes the session out of the map and puts it
-- back. A pointer to a core is its ID. IDs are uint32_t and wrap; other counters do not.
--
-- Loops are structural recursion over what is left to read. The replay of queued lines has the length of
-- the queue as its fuel, since a line that is executed from the queue is not queued again.
--
-- The main loop is a function of a list of rounds, each with what the operating system answers in it.
--
-- Not modelled: which messages the parts of the program log, the locale, the help text of the command
-- line, the table from descriptors to sessions and instances in the libevent loop (an event carries the
-- ID), fractions of seconds, and the submodule graphcore (class Cli and the table of core commands), whose
-- functions are parameters.
pub mod Prelude
pub mod Access
pub mod Outcome
pub mod External
pub mod Descriptor
pub mod Writer
pub mod Status
pub mod Auth
pub mod Core
pub mod Session
pub mod Server
pub mod Startup
pub mod Tests
