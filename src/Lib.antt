-- ===== src/Lib.antt =====
-- Verification of the media streaming server, a TCP server that lists and streams the files of one
-- directory to many clients at once.
--
-- The program's parts, the files that model them and the names that differ from the code's:
--
-- Protocol         src/Protocol.cpp: reading a request line and building the replies. Trim and Decimal
--                  are what it uses of text; Requests and Trim/Blanks hold the proofs.
-- FilePath         what src/FileManager.cpp uses of std::filesystem::path on the text of a path alone,
--                  as POSIX and the C++ standard define it. Relative holds the proofs.
-- FileManager      src/FileManager.cpp: the directory that is served, and which paths are let through.
--                  `inside_root` is the test on the canonical path, `refused_name` those on the text,
--                  `collect` the loop of list_files. An out parameter is the value of an Option.
-- Socket           src/Socket.cpp: the wrapper of a descriptor. The loops of send_all, recv_all and
--                  recv_line are `send_loop`, `recv_loop` and `line_loop`; what a round does with the
--                  reply of the system is `send_next`, `recv_next` and `line_next`.
-- Logger           src/Logger.cpp: the levels, the lines and where they go. `run_calls` takes the calls
--                  of all threads in the order in which they get the mutex.
-- ClientSession    src/ClientSession.cpp: one client's connection, its handlers and its loop. The body
--                  of handle_get is `after_size`, `after_open`, `send_file` and `stream_loop`. Keeps and
--                  Keeps/Run carry a property of the world through a whole session; Bounds and
--                  Isolation are two of these. Exchange and Conversation say what a session says.
-- Server           src/Server.cpp: the listening socket and the table of sessions. `step` of
--                  Server/Threads has the accept thread, stop and the session threads as steps in any
--                  order; the phases say where a thread stands. `cleanup` is the loop of cleanup_finished_sessions. start up
--                  to the accept loop is `start`, `use_socket` and `listen_on`; handle_signal is
--                  `on_signal`, and `registered` says what running_instance_ points to. Binding has the
--                  ends of bind and listen, Starting those of start. Serving puts the table and its
--                  sessions together.
-- Client           src/client_main.cpp. do_get is in Client: its loop is `receive_loop`, and
--                  `iss >> file_size` is `read_unsigned`. do_list is in Client/Rows, the loops over the
--                  arguments in Client/Arguments, and main in Client/Program. Client/Delivery and
--                  Client/Listed put a server and a client together, and Client/Named and
--                  Client/Browsing a turn of a session and a client.
-- CommandLine      src/server_main.cpp: the loop over the arguments. `option_of` tells the options apart,
--                  and `set_option` is what each does with its value. CommandLine/Launch has the rest
--                  of main, and CommandLine/Serving goes from the arguments to the sessions.
-- Os               what all of these take from the operating system: a record of functions on a world,
--                  a parameter of the model. Os/Contract names what the theorems rely on: what send
--                  and recv do to the stream of bytes, what a read takes from a file, what has
--                  been handed to write and when a file holds it, that signals interrupt finitely often, that peers send finitely many
--                  bytes, what sigaction sets, which paths were asked about, and that a call on one
--                  descriptor is none on another. Os/Keeping has a property that calls keep, and
--                  Os/Monad computations over the world. The
--                  logger has its own such record, with the clock, the log file and the console.
-- Base             shared helpers. Tests has a concrete system and the theorems at concrete inputs.
--
-- The server owns the file manager and the sessions; a session uses the file manager, its socket
-- and the protocol; the file manager and the socket call the system. A session's flag is_active_
-- is shared with the thread that calls stop: the system says at each load of the flag whether a
-- stop has come.
--
-- A string is a list of bytes and sizes are natural numbers; the session counter wraps at 2^64,
-- and the count that send_all writes is cast to a 32-bit int. A loop runs on a number of rounds,
-- and `none` says that they are used up; for the socket's loops the bytes and the interruptions to
-- come are enough, and for a GET the size of the file comes on top. A session's loop has a
-- round for each byte to come. `none` is also the end of the process when the memory for the
-- buffer of a GET cannot be had, as `allocates` says: the allocation throws in the session's
-- thread and nothing catches it. Letters and blanks are those of the C locale.
--
-- Not modelled: the text of the log lines that the other parts write, what the two programs
-- print beside the rows of a listing, the timing of transfers, a stream of the logger that
-- fails, errors of the directory iterator, and an allocation that fails elsewhere than at the
-- buffer of a GET. Every call of the system returns: a call that waits forever is not modelled.
-- The server sets timeouts on the sockets that it accepts, but the client sets none, so no
-- theorem says that the client's loops end. A write to the client's file may fail, which the
-- client does not look at. weakly_canonical keeps a slash at the end of a path, as an empty last
-- name. A thread in stop takes three steps: the
-- exchange of is_running_, the close of the listening socket, and the work under the lock. A
-- step of the accept thread that puts a client into the table covers the two places where
-- accept_loop holds the lock.
pub mod Base
pub mod Protocol
pub mod FilePath
pub mod Logger
pub mod Os
pub mod FileManager
pub mod Socket
pub mod ClientSession
pub mod Server
pub mod Client
pub mod CommandLine
mod Tests
