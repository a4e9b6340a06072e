-- ===== src/Tests/Mains.antt =====
-- The server's program at concrete inputs, from its arguments to the end of a session.
use multi_client_media_strea.Base.{true, false, [], ◌∷◌, ◌++◌, ◌≡◌, refl, some, codes}
use multi_client_media_strea.ClientSession
use multi_client_media_strea.ClientSession.{ClientSession}
use multi_client_media_strea.ClientSession.Bounds.{AskedInside}
use multi_client_media_strea.CommandLine
use multi_client_media_strea.CommandLine.{default_config}
use multi_client_media_strea.CommandLine.Launch
use multi_client_media_strea.CommandLine.Launch.{Launched, serves, server_main}
use multi_client_media_strea.CommandLine.Serving.{
  Ready, server_main-Ready, server_main-AskedInside, at_loop,
}
use multi_client_media_strea.FilePath.{FilePath}
use multi_client_media_strea.FilePath.Relative.{IsCanonical}
use multi_client_media_strea.Logger
use multi_client_media_strea.Logger.{Logger, info}
use multi_client_media_strea.Os.Contract.{Signals}
use multi_client_media_strea.Server.{Server, SessionWorker}
use multi_client_media_strea.Server.Threads.{accepting, run}
use multi_client_media_strea.Socket.{invalid}
use multi_client_media_strea.Tests.Examples.{session}
use multi_client_media_strea.Tests.Ledger.{Ledger, ledger}
use multi_client_media_strea.Tests.Logs.{Desk, desk_system}
use multi_client_media_strea.Tests.Opened.{server_code, run_code}
use multi_client_media_strea.Tests.Promises.{machine_signals, resolve-IsCanonical}
use multi_client_media_strea.Tests.Starts.{start_code, fresh, started}
use multi_client_media_strea.Tests.Visits.{ledger_asking, ledger_answers, blank, goodbye, sevens}

abbrev ledger_signals : Signals ledger
ledger_signals = record {
  action = λ s w. machine_signals.action s w.base;
  sigaction_law = λ s a w. machine_signals.sigaction_law s a w.base;
  sigaction_others = λ s t a w h. machine_signals.sigaction_others s t a w.base h;
  by_socket = λ t w. refl;
  by_setsockopt = λ t fd o w. refl;
  by_bind = λ t fd ip port w. refl;
  by_listen = λ t fd backlog w. refl;
  by_close = λ t fd w. refl;
}

ledger_finds :
    (q p : FilePath) (w w' : Ledger) → ledger.canonical q w ≡ (some p, w') → IsCanonical p
ledger_finds q p w w' e = resolve-IsCanonical (record q { absolute = true }) p (λ i. (e i).0)

abbrev desk : Desk
desk = record { file = []; console = [] }

-- `media` in the root of all paths.
abbrev up : Server
up = record started {
  file_manager = record {
    root_dir = fresh.file_manager.root_dir;
    canonical_root = record { absolute = true; elements = codes "media" ∷ [] };
  };
}

abbrev logger : Logger
logger = record { min_level = info; file_stream = some 0; enable_console = true; is_tty = false }

abbrev main_result : Launched × (Ledger × Desk)
unfolding start_code Launch.server_main CommandLine.read_arguments Launch.level_of Logger.init
main_result = server_main ledger desk_system [] (blank, desk)

mains :
    server_main ledger desk_system [] (blank, desk)
    ≡ (serves up logger, (main_result.1.0, main_result.1.1))
unfolding main_result
mains = refl

server_main-Ready_example : Ready ledger ledger_signals up main_result.1.0
server_main-Ready_example =
    server_main-Ready ledger ledger_signals ledger_finds desk_system [] blank main_result.1.0 desk
      main_result.1.1 up logger mains

abbrev guest : SessionWorker
guest = record { session = record session { session_id = 1; chunk_size = 65536 }; joinable = true }

guest_enters :
    (run ledger
      (accepting ∷ accepting ∷ accepting ∷ [])
      (at_loop ledger up main_result.1.0)).server.workers
    ≡ [] ++ guest ∷ []
unfolding server_code main_result
guest_enters = refl

abbrev tune : FilePath
tune = record { absolute = true; elements = codes "media" ∷ codes "a.txt" ∷ [] }

abbrev departure : Ledger
departure = record { base = goodbye; asked = tune ∷ tune ∷ tune ∷ []; calls = sevens 24 }

guest_served :
    ClientSession.run ledger 20 4 up.file_manager guest.session blank
    ≡ some (record guest.session { is_active = false; socket = invalid }, departure)
unfolding run_code
guest_served = refl

same_manager :
    (run ledger
      (accepting ∷ accepting ∷ accepting ∷ [])
      (at_loop ledger up main_result.1.0)).server.file_manager
    ≡ up.file_manager
unfolding server_code main_result
same_manager = refl

server_main-AskedInside_example : AskedInside up.file_manager.canonical_root [] departure.asked
server_main-AskedInside_example =
    server_main-AskedInside ledger ledger_signals ledger_finds ledger_answers ledger_asking
      desk_system [] blank main_result.1.0 desk main_result.1.1 up logger
      (accepting ∷ accepting ∷ accepting ∷ []) [] [] guest 20 4
      (record guest.session { is_active = false; socket = invalid }) blank departure mains
      guest_enters refl (rw same_manager guest_served)
