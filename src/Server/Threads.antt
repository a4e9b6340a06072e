-- ===== src/Server/Threads.antt =====
-- src/Server.cpp: the threads of the server. The accept loop runs in one thread and `stop` in another,
-- or in a signal handler; `run` takes their steps, and the ends of the sessions' threads, in any
-- order.
use multi_client_media_strea.Base.{ℕ, false, List, [], ◌∷◌, ◌==◌, if◌then◌else◌}
use multi_client_media_strea.Os.{Os, Address}
use multi_client_media_strea.Socket
use multi_client_media_strea.Socket.{Socket, invalid, is_valid}
use multi_client_media_strea.Server.{Server, SessionWorker, close_listening, clear_table, admit}

-- Where the thread that runs `stop` stands: at its start or past its end, behind the exchange of
-- `is_running_`, or behind the close of the listening socket, before it locks the table.
pub data Stopping : Type 0 where
  resting flagged closed : Stopping

-- Where the thread in `accept_loop` stands: before the loop's test, in `accept`, behind it with a
-- client, or out of the loop.
pub data Phase : Type 0 where
  testing waiting left : Phase
  holding : Socket → Address → Phase

pub data Event : Type 0 where
  accepting stopping : Event
  finishing : ℕ → Event

module _ (os : Os) where
  open os use {World}

  pub record State : Type 0 where
    pub server : Server
    pub phase : Phase
    pub stopper : Stopping
    pub world : World

  -- `while (is_running_)`
  unfoldable pub test_running : State → State
  test_running st = record st { phase = if st.server.is_running then waiting else left }

  -- `accept`, and what follows if it fails.
  unfoldable pub accept_client : State → State
  accept_client st =
      let ((client_sock, client), w') =
        Socket.accept os st.server.server_socket (record { ip = []; port = 0 }) st.world in
      if is_valid client_sock
      then record st { phase = holding client_sock client; world = w' }
      else record st { phase = if st.server.is_running then testing else left; world = w' }

  -- A client that `accept_loop` holds enters the table.
  unfoldable pub enter : Socket → Address → State → State
  unfolding admit
  enter client_sock client st =
      let (server', w') = admit os st.server client_sock client st.world in
      record st { server = server'; phase = testing; world = w' }

  -- The next step of the thread in `accept_loop`.
  unfoldable pub accept_step : Phase → State → State
  unfolding test_running accept_client enter
  accept_step testing st = test_running st
  accept_step waiting st = accept_client st
  accept_step (holding client_sock client) st = enter client_sock client st
  accept_step left st = st

  -- The next step of a thread, or of a signal handler, in `stop`. The exchange lets one in only.
  unfoldable pub stop_step : Stopping → State → State
  unfolding close_listening clear_table
  stop_step resting st =
      if st.server.is_running
      then record st { server = record st.server { is_running = false }; stopper = flagged }
      else st
  stop_step flagged st =
      let (server', w') = close_listening os st.server st.world in
      record st { server = server'; stopper = closed; world = w' }
  stop_step closed st =
      let ((server', gone), w') = clear_table os st.server st.world in
      record st { server = server'; stopper = resting; world = w' }

  -- The end of `ClientSession::run` in the thread of session `id`.
  unfoldable pub finish : ℕ → List SessionWorker → World → List SessionWorker × World
  finish id [] w = ([], w)
  finish id (worker ∷ rest) w =
      let (socket', w₁) = Socket.close os worker.session.socket w in
      let ended = record worker.session { is_active = false; socket = socket' } in
      let (rest', w₂) = finish id rest w in
      if worker.session.session_id == id
      then (record worker { session = ended } ∷ rest, w₁)
      else (worker ∷ rest', w₂)

  unfoldable pub finish_step : ℕ → State → State
  unfolding finish
  finish_step id st =
      let (workers', w') = finish id st.server.workers st.world in
      record st { server = record st.server { workers = workers' }; world = w' }

  unfoldable pub step : Event → State → State
  unfolding accept_step stop_step finish_step
  step accepting st = accept_step st.phase st
  step stopping st = stop_step st.stopper st
  step (finishing id) st = finish_step id st

  unfoldable pub run : List Event → State → State
  unfolding step
  run [] st = st
  run (e ∷ es) st = run es (step e st)
