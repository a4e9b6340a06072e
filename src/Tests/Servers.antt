-- ===== src/Tests/Servers.antt =====
-- The server's theorems at concrete states.
use multi_client_media_strea.Base.{
  arith, ℕ, ◌+◌, Bool, true, false, List, [], ◌∷◌, ◌≡◌, refl, codes, pos,
}
use multi_client_media_strea.Os.{Address, sig_default}
use multi_client_media_strea.Server.Loop.{IsDown, stop_clean}
use multi_client_media_strea.Server.Leak.{Leaked, stop_leaks}
use multi_client_media_strea.Server.Numbers.{WellNumbered, run-WellNumbered}
use multi_client_media_strea.Server.Table.{Cleaned, cleanup-Cleaned, Stopped, stop-Stopped}
use multi_client_media_strea.Server.{Server, SessionWorker, cleanup, stop}
use multi_client_media_strea.Server.Threads.{
  State, Event, accepting, stopping, finishing, waiting, left, holding, step, resting, run,
}
use multi_client_media_strea.Socket.{Socket}
use multi_client_media_strea.Tests.Opened.{server_code}
use multi_client_media_strea.Tests.Machine.{Machine, machine}

abbrev pub idle : Machine
idle = record {
  sent = [];
  taken = [];
  incoming = [];
  file = [];
  saved = [];
  burst = 2;
  ended = false;
  interrupts = 0;
  stopping = false;
  actions = λ s. sig_default;
}

abbrev worker : ℕ → Bool → SessionWorker
worker id active = record {
  session = record {
    session_id = id;
    socket = record { fd = pos (id + 10) };
    client_ip = codes "127.0.0.1";
    client_port = 45232;
    chunk_size = 4;
    is_active = active;
  };
  joinable = true;
}

abbrev pub serving : Server
serving = record {
  config = record {
    host = codes "0.0.0.0";
    port = 8080;
    media_dir = codes "media";
    chunk_size = 65536;
    backlog = pos 128;
    socket_timeout_sec = pos 30;
    log_file = [];
  };
  file_manager = record {
    root_dir = record { absolute = false; elements = codes "media" ∷ [] };
    canonical_root = record { absolute = true; elements = codes "media" ∷ [] };
  };
  server_socket = record { fd = pos 3 };
  is_running = true;
  next_session_id = 3;
  workers = worker 1 false ∷ worker 2 true ∷ [];
  registered = true;
}

abbrev client : Address
client = record { ip = codes "127.0.0.1"; port = 45300 }

abbrev client_sock : Socket
client_sock = record { fd = pos 7 }

abbrev pub at_accept : State machine
at_accept = record { server = serving; phase = waiting; stopper = resting; world = idle }

abbrev at_hand : State machine
at_hand = record {
  server = serving;
  phase = holding client_sock client;
  stopper = resting;
  world = idle;
}

cleanup-Cleaned_example :
    Cleaned
      (worker 1 false ∷ worker 2 true ∷ [])
      (cleanup (worker 1 false ∷ worker 2 true ∷ [])).0
      (cleanup (worker 1 false ∷ worker 2 true ∷ [])).1
cleanup-Cleaned_example = cleanup-Cleaned (worker 1 false ∷ worker 2 true ∷ [])

stop-Stopped_example :
    Stopped machine serving (stop machine serving idle).0.0 (stop machine serving idle).0.1
stop-Stopped_example = stop-Stopped machine serving idle refl

abbrev before : List Event
before = stopping ∷ stopping ∷ []

abbrev afterwards : List Event
afterwards = accepting ∷ finishing 2 ∷ stopping ∷ accepting ∷ []

abbrev down : State machine
down = run machine afterwards (step machine stopping (run machine before at_accept))

stop_clean_example :
    IsDown machine down × (step machine accepting down ≡ record down { phase = left })
unfolding server_code
stop_clean_example = stop_clean machine at_accept before afterwards refl refl tt

stop_leaks_example :
    Leaked machine 3 client_sock
      (run machine (stopping ∷ stopping ∷ stopping ∷ accepting ∷ accepting ∷ []) at_hand)
stop_leaks_example = stop_leaks machine at_hand client_sock client refl refl refl

abbrev mixed : List Event
mixed = accepting ∷ finishing 2 ∷ stopping ∷ accepting ∷ []

run-WellNumbered_example : WellNumbered (run machine mixed at_hand).server
run-WellNumbered_example =
    run-WellNumbered machine mixed at_hand (omega arith)
      (omega arith, ((λ e. ground arith), tt), (omega arith, tt, tt))
