-- ===== src/Tests/Served.antt =====
-- A client from its connection to the end of its session.
use multi_client_media_strea.Base.{ℕ, true, false, [], ◌∷◌, ◌≡◌, refl, some, pos}
use multi_client_media_strea.ClientSession
use multi_client_media_strea.ClientSession.{ClientSession}
use multi_client_media_strea.ClientSession.Conversation.{Conversation}
use multi_client_media_strea.Server.Serving.{run-Serving}
use multi_client_media_strea.Server.{SessionWorker}
use multi_client_media_strea.Server.Threads.{State, accepting, run}
use multi_client_media_strea.Socket.{invalid}
use multi_client_media_strea.Tests.Examples.{session, manager}
use multi_client_media_strea.Tests.Machine.{machine}
use multi_client_media_strea.Tests.Opened.{server_code, run_code}
use multi_client_media_strea.Tests.Promises.{machine_wire, machine_reading}
use multi_client_media_strea.Tests.Servers.{serving, at_accept}
use multi_client_media_strea.Tests.Visits.{hello, goodbye}

abbrev empty_table : State machine
empty_table = record at_accept { server = record serving { workers = [] } }

abbrev entered : SessionWorker
entered = record {
  session = record session { session_id = 3; chunk_size = 65536 };
  joinable = true;
}

in_table : (run machine (accepting ∷ accepting ∷ []) empty_table).server.workers ≡ entered ∷ []
unfolding server_code
in_table = refl

served :
    ClientSession.run machine 20 4 manager entered.session hello
    ≡ some (record entered.session { is_active = false; socket = invalid }, goodbye)
unfolding run_code
served = refl

run-Serving_example :
    (fd : ℕ) × (entered.session.socket ≡ record { fd = pos fd })
    × Conversation machine machine_wire machine_reading fd
        (record entered.session { is_active = true })
        manager
        hello
        goodbye
run-Serving_example =
    run-Serving machine machine_wire machine_reading (accepting ∷ accepting ∷ []) empty_table [] []
      entered 20 4 manager (record entered.session { is_active = false; socket = invalid }) hello
      goodbye refl tt in_table refl served
