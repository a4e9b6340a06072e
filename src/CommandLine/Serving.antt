-- ===== src/CommandLine/Serving.antt =====
-- The server's program from its command line to its sessions.
use multi_client_media_strea.Base.{
  ℕ, Bool, true, false, List, [], ◌∷◌, ◌++◌, ◌≡◌, refl, arith, some, pos, Bytes, codes,
}
use multi_client_media_strea.ClientSession
use multi_client_media_strea.ClientSession.{ClientSession}
use multi_client_media_strea.ClientSession.Bounds.{AskedInside, run-AskedInside}
use multi_client_media_strea.CommandLine.{
  CommandLine, show_usage, bad_usage, launch, default_config, read_arguments,
}
use multi_client_media_strea.CommandLine.Launch.{
  serves, launch_server, server_main, started, follow,
}
use multi_client_media_strea.CommandLine.Usable.{IsUsable, read_arguments-IsUsable}
use multi_client_media_strea.FileManager.Safety.{AnswersNormal, FindsCanonical, init-IsCanonical}
use multi_client_media_strea.FilePath.Relative.{IsCanonical}
use multi_client_media_strea.Logger.{LogSystem, Logger}
use multi_client_media_strea.Os.{Os}
use multi_client_media_strea.Os.Contract.{Signals, Asking}
use multi_client_media_strea.Server.{Server, ServerConfig, SessionWorker, make_server}
use multi_client_media_strea.Server.Binding.{Listens}
use multi_client_media_strea.Server.Serving.{run-file_manager, run-connected}
use multi_client_media_strea.Server.Starting.{Handled, Started, listening, start-Started}
use multi_client_media_strea.Server.Threads.{State, Event, testing, resting, run}

-- A server that is about to enter its accept loop.
pub record Ready (os : Os) (signals : Signals os) (server : Server) (w : os.World) : Type 0 where
  pub usable : IsUsable server.config
  pub rooted : IsCanonical server.file_manager.canonical_root
  pub fd : ℕ
  pub socket : server.server_socket ≡ record { fd = pos fd }
  pub listens : Listens os server.config fd w
  pub running : server.is_running ≡ true
  pub registered : server.registered ≡ true
  pub empty : server.workers ≡ []
  pub first_id : server.next_session_id ≡ 1
  pub handled : Handled os signals w

default-IsUsable : IsUsable default_config
default-IsUsable = record {
  port_nonzero = omega arith;
  port_bound = omega arith;
  chunked = omega arith;
}

module _ (os : Os) (signals : Signals os) (finds : FindsCanonical os) where
  Started-Ready :
      (config : ServerConfig) (w w' : os.World) (server : Server)
      → IsUsable config
      → Started os signals (make_server config) w (true, server) w'
      → Ready os signals server w'
  unfolding make_server
  Started-Ready config w w' server u (listening {fm = fm} {w₁ = w₁} {fd = n} i made v h) = record {
    usable = u;
    rooted = init-IsCanonical os finds _ fm w w₁ i;
    fd = n;
    socket = refl;
    listens = v;
    running = refl;
    registered = refl;
    empty = refl;
    first_id = refl;
    handled = h;
  }

  module _ (sys : LogSystem) where
    started-serves :
        (logger logger' : Logger) (r : (Bool × Server) × os.World) (u u' : sys.World)
        (server : Server) (w' : os.World)
        → started os sys logger r u ≡ (serves server logger', (w', u'))
        → r ≡ ((true, server), w')
    started-serves logger logger' ((false, s), v) u u' server w' e = absurd (cc e)
    started-serves logger logger' ((true, s), v) u u' server w' e = cc

    launch_server-Ready :
        (config : ServerConfig) (level : Bytes) (w w' : os.World) (u u' : sys.World)
        (server : Server) (logger : Logger)
        → IsUsable config
        → launch_server os sys config level (w, u) ≡ (serves server logger, (w', u'))
        → Ready os signals server w'
    unfolding launch_server
    launch_server-Ready config level w w' u u' server logger usable e =
        Started-Ready config w w' server usable (
          start-Started os signals (make_server config) server true w w'
            (started-serves _ logger _ _ u' server w' e))

    follow-Ready :
        (command : CommandLine) (args : List Bytes) (w w' : os.World) (u u' : sys.World)
        (server : Server) (logger : Logger)
        → read_arguments args default_config (codes "info") ≡ command
        → follow os sys command (w, u) ≡ (serves server logger, (w', u'))
        → Ready os signals server w'
    follow-Ready show_usage args w w' u u' server logger q e = absurd (cc e)
    follow-Ready bad_usage args w w' u u' server logger q e = absurd (cc e)
    follow-Ready (launch config level) args w w' u u' server logger q e =
        launch_server-Ready config level w w' u u' server logger
          (read_arguments-IsUsable args default_config config (codes "info") level default-IsUsable
            q)
          e

-- Where the system keeps the contract `Signals` and `canonical` answers with canonical paths: if
-- `main` with any arguments gets as far as its accept loop, then the server is running and registered
-- on a descriptor on which `bind`, to the address and port of its configuration, and then `listen` have
-- succeeded, with an empty table and the session id 1 to come; the port of its configuration is from 1 to 65535 and its chunk size is not 0, its root is canonical, and the actions
-- of SIGPIPE, SIGINT and SIGTERM are installed.
pub server_main-Ready :
    (os : Os) (signals : Signals os) (finds : FindsCanonical os) (sys : LogSystem)
    (args : List Bytes) (w w' : os.World) (u u' : sys.World) (server : Server) (logger : Logger)
    → server_main os sys args (w, u) ≡ (serves server logger, (w', u'))
    → Ready os signals server w'
unfolding server_main
server_main-Ready os signals finds sys args w w' u u' server logger e =
    follow-Ready os signals finds sys (read_arguments args default_config (codes "info")) args w w'
      u u' server logger refl e

-- The server where `start` enters `accept_loop`.
abbrev pub at_loop : (os : Os) → Server → os.World → State os
at_loop os server w = record { server = server; phase = testing; stopper = resting; world = w }

-- The server's program as a whole. Where the system keeps the contracts `Signals` and `Asking`, and
-- `canonical` answers with canonical paths and `weakly_canonical` answers absolute questions in normal
-- form: let `main` with any arguments get as
-- far as its accept loop, and let the threads take any steps from there. If the `run` of an active
-- session of the table, with the server's file manager, returns, then it has asked the file system only
-- about paths that are the root that `main` found or stand below it.
pub server_main-AskedInside :
    (os : Os) (signals : Signals os) (finds : FindsCanonical os) (answers : AnswersNormal os)
    (asking : Asking os) (sys : LogSystem) (args : List Bytes) (w w' : os.World) (u u' : sys.World)
    (server : Server) (logger : Logger) (es : List Event) (front rest : List SessionWorker)
    (worker : SessionWorker) (rounds fuel : ℕ) (t : ClientSession) (v x : os.World)
    → server_main os sys args (w, u) ≡ (serves server logger, (w', u'))
    → (run os es (at_loop os server w')).server.workers ≡ front ++ worker ∷ rest
    → worker.session.is_active ≡ true
    → ClientSession.run os rounds fuel
        (run os es (at_loop os server w')).server.file_manager
        worker.session
        v
      ≡ some (t, x)
    → AskedInside server.file_manager.canonical_root (asking.asked v) (asking.asked x)
server_main-AskedInside os signals finds answers asking sys args w w' u u' server logger es front
      rest worker rounds fuel t v x e there on ran =
    let ready = server_main-Ready os signals finds sys args w w' u u' server logger e in
    let st = at_loop os server w' in
    let (fd, connected) = run-connected os es st front rest worker ready.empty tt there on in
    run-AskedInside os asking answers rounds fuel fd server.file_manager worker.session t v x
      ready.rooted connected
      (rw (run-file_manager os es st front rest worker ready.empty tt there) at ran)
