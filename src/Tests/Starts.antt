-- ===== src/Tests/Starts.antt =====
-- The start of the server, at concrete inputs.
use multi_client_media_strea.Base.{true, false, ◌≡◌, refl, pos}
use multi_client_media_strea.CommandLine.{default_config}
use multi_client_media_strea.FileManager
use multi_client_media_strea.Os.{Os, failed, other}
use multi_client_media_strea.Protocol.Trim
use multi_client_media_strea.Server
use multi_client_media_strea.Server.Starting.{Started, start-Started}
use multi_client_media_strea.Server.{Server, start, make_server}
use multi_client_media_strea.Socket
use multi_client_media_strea.Socket.{invalid}
use multi_client_media_strea.Tests.Machine.{machine}
use multi_client_media_strea.Tests.Promises.{machine_signals}
use multi_client_media_strea.Tests.Opened.{path_code, socket_code}
use multi_client_media_strea.Tests.Servers.{idle}

unfoldable pub start_code : Unit {0}
unfolding path_code socket_code Server.make_server Server.start Server.use_socket Server.listen_on
    Server.install_signal_handlers FileManager.init FileManager.set_root Trim.is_empty
    Socket.create_tcp Socket.move_assign Socket.set_reuse_address Socket.bind Socket.listen
start_code = tt

abbrev pub fresh : Server
fresh = make_server default_config

abbrev pub started : Server
started = record fresh {
  file_manager = record fresh.file_manager { canonical_root = fresh.file_manager.root_dir };
  server_socket = record { fd = pos 3 };
  registered = true;
  is_running = true;
}

start-Started_example :
    Started machine machine_signals fresh idle (true, started) (start machine fresh idle).1
unfolding start_code
start-Started_example = start-Started machine machine_signals fresh started true idle _ refl

-- A server that cannot listen stays registered.
abbrev deaf : Os
deaf = record machine { listen = λ fd backlog w. (failed (other 98), w) }

stays_registered :
    (start deaf fresh idle).0
    ≡ (false, record started { server_socket = invalid; is_running = false })
unfolding start_code
stays_registered = refl
