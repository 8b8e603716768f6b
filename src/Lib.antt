-- ===== src/Lib.antt =====
-- The itVPN license agent: models of its parts and theorems on them.
--
-- The agent runs beside a VPN client. A timer runs Get_License_Task (get_license_task/), which on
-- the days of the update asks the license server for a license and stores it, and
-- Process_Killer_Task (process_killer_task/), which on the day of the check stops the VPN client
-- where the license is missing or not valid. EventSink_Task (event_sink_task/) asks for a license
-- when the VPN client starts. All three use LicenseChecker (license/license_checker.cpp) for the
-- license file and for the program `lic`, LicenseExtractor (client/client_license.cpp) for the
-- server, and the configuration of Parser (parser/parser_ini.cpp). nx_service/ and nt_service/ set
-- the tasks up and set them again when the configuration changes. server/ and http_server/ are two
-- HTTP servers that give out files and take POST parameters.
--
-- Files:
--   Prelude       texts as bytes, numbers, and actions that change a state and may throw; Frames has
--                 the rules for what an action leaves alone
--   Platform      the calls of the operating system and of the libraries, as parameters
--   Tools         tools/tools.cpp and tools/message_sender.h: the branches for Linux, and in Windows
--                 those for Windows
--   Config        parser/parser_ini.cpp: get_value, create_root, init, make_paths; Windows has init as
--                 it is compiled there
--   License       license/license_checker.cpp, one function per method
--   Client        client/client_license.cpp: send_request, processing_license; Types has the header
--   Tasks         GetLicense, ProcessKiller, EventSink: `svc` of each task, with its try block and its
--                 catch clauses; Shared has what they have in common
--   Service       nx_service/: handle_input of both handlers, reshedule_tasks, the start of run;
--                 Process has nt_service/initializer.cpp
--   Daemon        the running agent: the tasks and the handlers on one machine, one step after
--                 another in any order, with what other programs do to the machine
--   Server        server/: Parser, Parameters, Url, Handler, Reply and Connections, for the class of
--                 each file; Exchange puts them together
--   WebHandler    http_server/handle_request.h and mime_types.cpp
--   WebServer     http_server/: Session and Listener, for session.cpp and listener.cpp; Exchange puts a
--                 session and its handler together
--   Windows       nt_service/: processing and svc of config_change.cpp; Notifications has
--                 notificator.cpp, NtService has ntsvc.cpp and handle_signal, and Sink has
--                 eventsink.cpp; Scm has service.h, an older service that no file includes
--   Fanotify      event_sink_linux/notificator_linux.cpp, which is not added to the build: the events and
--                 the loop; Marks has the start and the destructor
--   Tests         a machine to run the agent on, and the theorems at inputs on it
--
-- A method is an action on the state that it changes: World for the tasks (the machine, the
-- messages sent, the pending timer), Daemon for the whole agent, LicenseResult for the client,
-- Config.Parser for init, and Server.Parser.Parser for the request parser. An outcome is a value, an
-- exception of the C++ code or of what it calls, or `fault`, which stands for undefined behaviour: a null pointer,
-- a subscript out of range, an uninitialised number, freed memory, a missing return. In Scm `none` is a
-- call that does not return.
--
-- Bounds and fuel: to_string prints with one unit of fuel more than the number, which is more than its
-- digits; the walk along the changes of Windows takes one unit for each change, and the client that
-- reads a reply one for each byte. All other loops are by recursion on their input; the repetition of
-- a failed call is on the sequence of the calls up to the one that is answered. In Scm the fuel bounds
-- how deep two functions call each other, one level where a report is taken, and the rounds bound the
-- waits for the thread. The version numbers of the request parser are ints, whose overflow is `fault`.
-- Other numbers that int and long cannot hold are undefined in the C++ code and exact here; a DWORD
-- wraps, and so does the reference counter of Sink.
--
-- Not modelled: logging, the threads and the reactor of ACE (a timer is the delay of the one that is
-- pending), runs of two tasks that overlap in time, controls of Scm while the thread is waited for, the
-- JSON library, the templates and the samples, which are copies of other projects, and files that are
-- not built: nx_service/notificator_linux.cpp, which calls a function that does not exist, and
-- nx_service/initializer.cpp, http_server/request_handler.cpp, event_sink_win/ and
-- get_license_task/get_license_task_1.cpp, of which other versions are modelled.
pub mod Client
pub mod Config
pub mod Daemon
pub mod Fanotify
pub mod License
pub mod Platform
pub mod Prelude
pub mod Server
pub mod Service
pub mod Tasks
pub mod Tests
pub mod Tools
pub mod WebHandler
pub mod WebServer
pub mod Windows
