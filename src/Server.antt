-- ===== src/Server.antt =====
-- src/Server.cpp and include/streamer/Server.hpp: the listening socket and the table of sessions.
-- Log lines are left out. Threads has the accept loop, `stop` and the sessions as threads.
pub mod Binding
pub mod Threads
pub mod Loop
pub mod Table
pub mod Leak
pub mod Each
pub mod Numbers
pub mod Starting
pub mod Serving
use multi_client_media_strea.Base.{
  ℕ, ◌+◌, ◌%◌, ◌^◌, Bool, true, false, not, ◌&&◌, List, [], ◌∷◌, ◌++◌, Bytes, ℤ, negsuc, ◌==◌,
  if◌then◌else◌,
}
use multi_client_media_strea.ClientSession
use multi_client_media_strea.ClientSession.{ClientSession, make_session}
use multi_client_media_strea.FileManager
use multi_client_media_strea.FileManager.{FileManager}
use multi_client_media_strea.Os.{
  Os, Address, Signal, sigint, sigterm, sigpipe, sig_ign, handle_signal,
}
use multi_client_media_strea.Socket
use multi_client_media_strea.Socket.{Socket, invalid, is_valid}

-- `struct ServerConfig` of Types.hpp.
pub record ServerConfig : Type 0 where
  pub host : Bytes
  pub port : ℕ
  pub media_dir : Bytes
  pub chunk_size : ℕ
  pub backlog : ℤ
  pub socket_timeout_sec : ℤ
  pub log_file : Bytes

-- A session and its thread. A thread that has been joined is no longer joinable.
pub record SessionWorker : Type 0 where
  pub session : ClientSession
  pub joinable : Bool

-- `registered` says that `running_instance_` points to this server.
pub record Server : Type 0 where
  pub config : ServerConfig
  pub file_manager : FileManager
  pub server_socket : Socket
  pub is_running : Bool
  pub next_session_id : ℕ
  pub workers : List SessionWorker
  pub registered : Bool

-- `if (t.joinable()) t.join();`
abbrev pub join : SessionWorker → SessionWorker
join worker = record worker { joinable = false }

-- A round of the loop of `cleanup_finished_sessions`, on whether the session is active: the workers
-- that stay, and those that are joined and erased, in order, with those of the rounds behind it.
unfoldable pub place :
    Bool
    → SessionWorker
    → List SessionWorker × List SessionWorker
    → List SessionWorker × List SessionWorker
place false worker (kept, erased) = (kept, join worker ∷ erased)
place true worker (kept, erased) = (worker ∷ kept, erased)

unfoldable pub cleanup : List SessionWorker → List SessionWorker × List SessionWorker
unfolding place
cleanup [] = ([], [])
cleanup (worker ∷ rest) = place worker.session.is_active worker (cleanup rest)

unfoldable pub cleanup_finished_sessions : Server → Server
unfolding cleanup
cleanup_finished_sessions server = record server { workers = (cleanup server.workers).0 }

-- The constructor.
unfoldable pub make_server : ServerConfig → Server
make_server config = record {
  config = config;
  file_manager = FileManager.make config.media_dir;
  server_socket = invalid;
  is_running = false;
  next_session_id = 1;
  workers = [];
  registered = false;
}

abbrev pub is_termination : Signal → Bool
is_termination sigint = true
is_termination sigterm = true
is_termination _ = false

module _ (os : Os) where
  open os use {World}

  -- The first loop of `stop`.
  unfoldable pub stop_sessions : List SessionWorker → World → List SessionWorker × World
  stop_sessions [] w = ([], w)
  stop_sessions (worker ∷ rest) w =
      let (session', w₁) = ClientSession.stop os worker.session w in
      let (rest', w₂) = stop_sessions rest w₁ in (record worker { session = session' } ∷ rest', w₂)

  -- The second loop of `stop`.
  unfoldable pub join_all : List SessionWorker → List SessionWorker
  join_all [] = []
  join_all (worker ∷ rest) = join worker ∷ join_all rest

  -- `stop` between its guard and the lock.
  unfoldable pub close_listening : Server → World → Server × World
  close_listening server w =
      let w₁ = Socket.shutdown os server.server_socket w in
      let (socket', w₂) = Socket.close os server.server_socket w₁ in
      (record server { server_socket = socket' }, w₂)

  -- `stop` under the lock: the server, and the workers as they are when the table is cleared.
  unfoldable pub clear_table : Server → World → (Server × List SessionWorker) × World
  unfolding stop_sessions join_all
  clear_table server w =
      let (stopped, w') = stop_sessions server.workers w in
      ((record server { workers = []; registered = false }, join_all stopped), w')

  -- `stop` past its guard.
  unfoldable pub shut_down : Server → World → (Server × List SessionWorker) × World
  unfolding close_listening clear_table
  shut_down server w =
      let (server', w') = close_listening (record server { is_running = false }) w in
      clear_table server' w'

  unfoldable pub stop : Server → World → (Server × List SessionWorker) × World
  unfolding shut_down
  stop server w = if server.is_running then shut_down server w else ((server, []), w)

  unfoldable pub install_signal_handlers : World → World
  install_signal_handlers w =
      os.sigaction sigterm handle_signal
        (os.sigaction sigint handle_signal (os.sigaction sigpipe sig_ign w))

  -- The handler, on the server that `running_instance_` points to.
  unfoldable pub on_signal : Signal → Server → World → (Server × List SessionWorker) × World
  unfolding stop
  on_signal signum server w =
      if is_termination signum && server.registered then stop server w else ((server, []), w)

  -- The destructor.
  unfoldable pub destroy : Server → World → (Server × List SessionWorker) × World
  unfolding stop
  destroy server w = stop server w

  -- `start` from the point where the socket exists.
  unfoldable pub listen_on : Server → World → (Bool × Server) × World
  listen_on server w =
      let (reused, w₁) = Socket.set_reuse_address os server.server_socket true w in
      let (bound, w₂) =
        Socket.bind os server.server_socket server.config.host server.config.port w₁ in
      let (listening, w₃) = Socket.listen os server.server_socket server.config.backlog w₂ in
      let (closed₂, w₂') = Socket.close os server.server_socket w₂ in
      let (closed₃, w₃') = Socket.close os server.server_socket w₃ in
      if not bound
      then ((false, record server { server_socket = closed₂ }), w₂')
      else if not listening
      then ((false, record server { server_socket = closed₃ }), w₃')
      else ((true, record server { is_running = true }), w₃)

  -- `start` once `create_tcp` has returned. The old listening socket is closed by the move
  -- assignment.
  unfoldable pub use_socket : Server → Socket → World → (Bool × Server) × World
  unfolding listen_on
  use_socket server created w =
      let ((socket', moved), w') = Socket.move_assign os server.server_socket created w in
      let opened = record server { server_socket = socket' } in
      if is_valid socket' then listen_on opened w' else ((false, opened), w')

  -- `start` up to the accept loop.
  unfoldable pub start : Server → World → (Bool × Server) × World
  unfolding install_signal_handlers use_socket
  start server w =
      let ((ready, fm), w₁) = FileManager.init os server.file_manager w in
      let registered = record server { file_manager = fm; registered = true } in
      let (created, w₂) = Socket.create_tcp os (install_signal_handlers w₁) in
      if ready
      then use_socket registered created w₂
      else ((false, record server { file_manager = fm }), w₁)

  -- The body of the accept loop for a valid client socket.
  unfoldable pub admit : Server → Socket → Address → World → Server × World
  unfolding cleanup_finished_sessions
  admit server client_sock client w =
      let (set, w') =
        Socket.set_timeouts os client_sock server.config.socket_timeout_sec
          server.config.socket_timeout_sec w in
      let session =
        make_session server.next_session_id client_sock client.ip client.port
          server.config.chunk_size in
      let counted = record server { next_session_id = (server.next_session_id + 1) % 2 ^ 64 } in
      let cleaned = cleanup_finished_sessions counted in
      (
        record cleaned {
          workers = cleaned.workers ++ record { session = session; joinable = true } ∷ [];
        },
        w',
      )
