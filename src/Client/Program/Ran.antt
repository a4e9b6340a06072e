-- ===== src/Client/Program/Ran.antt =====
-- What an exit code of the client says.
use multi_client_media_strea.Base.{ℕ, Bool, true, false, List, [], ◌∷◌, ◌≡◌, ◌≢◌, refl, some, Bytes}
use multi_client_media_strea.Client.Arguments.{ClientArguments, connects, read_client_arguments}
use multi_client_media_strea.Client.Arguments.Ready.{IsReady, read_client_arguments-IsReady}
use multi_client_media_strea.Client.Program.{
  Exit, exits, terminates, finish_main, after_get, run_get, after_list, run_commands, on_connect,
  on_socket, invoke, client_main,
}
use multi_client_media_strea.Client.Rows.{Row, do_list}
use multi_client_media_strea.Client.{Verdict, gave_up, completed, threw, do_get}
use multi_client_media_strea.Os.{Os}
use multi_client_media_strea.Os.Monad.{
  Ensures, Ensures-some, Ensures->>=, Ensures-refl, Ensures-map,
}
use multi_client_media_strea.Protocol.Trim.{is_empty}
use multi_client_media_strea.Socket
use multi_client_media_strea.Socket.{Socket, is_valid}

abbrev pub exit_of : Verdict → Exit
exit_of gave_up = exits 1
exit_of completed = exits 0
exit_of threw = terminates

names_file : (s : Bytes) → s ≢ [] → is_empty s ≡ false
unfolding is_empty
names_file [] h = absurd (h refl)
names_file (c ∷ s) h = refl

names_none : (s : Bytes) → s ≡ [] → is_empty s ≡ true
unfolding is_empty
names_none s h = rw h refl

module _ (os : Os) (rounds : ℕ) where
  -- Only an exception leaves the socket open.
  abbrev pub world_of : Verdict → Socket → os.World → os.World
  world_of threw sock w = w
  world_of _ sock w = (Socket.close os sock w).1

  -- How a command on a connected socket ends, whichever it is.
  pub data Commanded (a : ClientArguments) (sock : Socket) (w : os.World)
      : Bool → Exit × os.World → Type 0 where
    fetched :
        {verdict : Verdict} {v : os.World}
        → do_get os rounds sock a.get_file a.output_dir w ≡ some (verdict, v)
        → Commanded a sock w false (exit_of verdict, world_of verdict sock v)
    listed :
        {verdict : Verdict} {rows : List Row} {v : os.World}
        → do_list os rounds sock w ≡ some ((verdict, rows), v)
        → Commanded a sock w true (exit_of verdict, world_of verdict sock v)

  pub data Ran (list_mode : Bool) (a : ClientArguments) (w : os.World)
      : Exit × os.World → Type 0 where
    no_socket :
        {sock : Socket} {w' : os.World}
        → Socket.create_tcp os w ≡ (sock, w')
        → is_valid sock ≡ false
        → Ran list_mode a w (exits 1, (Socket.destroy os sock w').1)
    no_connection :
        {sock : Socket} {w' w'' : os.World}
        → Socket.create_tcp os w ≡ (sock, w')
        → is_valid sock ≡ true
        → Socket.connect os sock a.host a.port w' ≡ (false, w'')
        → Ran list_mode a w (exits 1, (Socket.destroy os sock w'').1)
    commanded :
        {sock : Socket} {w' w'' : os.World} {r : Exit × os.World}
        → Socket.create_tcp os w ≡ (sock, w')
        → is_valid sock ≡ true
        → Socket.connect os sock a.host a.port w' ≡ (true, w'')
        → Commanded a sock w'' list_mode r
        → Ran list_mode a w r

  module _ (a : ClientArguments) (sock : Socket) where
    after_get-Commanded :
        (w : os.World) (verdict : Verdict) (v : os.World)
        → do_get os rounds sock a.get_file a.output_dir w ≡ some (verdict, v)
        → Ensures (Commanded a sock w false) (after_get os rounds sock verdict v)
    unfolding after_get finish_main
    after_get-Commanded w gave_up v e = fetched e
    after_get-Commanded w completed v e = fetched e
    after_get-Commanded w threw v e = fetched e

    run_get-Commanded :
        (w : os.World)
        → is_empty a.get_file ≡ false
        → Ensures (Commanded a sock w false) (run_get os rounds sock a w)
    unfolding run_get
    run_get-Commanded w named =
        rw (named, run_get)
          (Ensures->>= _ (Commanded a sock w false) _
            (do_get os rounds sock a.get_file a.output_dir) w (Ensures-refl _)
            (after_get-Commanded w))

    after_list-Commanded :
        (w : os.World) (verdict : Verdict) (rows : List Row) (v : os.World)
        → is_empty a.get_file ≡ true
        → do_list os rounds sock w ≡ some ((verdict, rows), v)
        → Ensures (Commanded a sock w true) (after_list os rounds sock a (verdict, rows) v)
    unfolding after_list finish_main run_get
    after_list-Commanded w gave_up rows v none_named e = listed e
    after_list-Commanded w completed rows v none_named e = rw (none_named, run_get) (listed e)
    after_list-Commanded w threw rows v none_named e = listed e

    run_commands-Commanded :
        (args : List Bytes) (list_mode : Bool) (w : os.World)
        → IsReady args list_mode a
        → Ensures (Commanded a sock w list_mode) (run_commands os rounds list_mode sock a w)
    unfolding run_commands
    run_commands-Commanded args false w r =
        run_get-Commanded w (names_file a.get_file (r.if_get refl))
    run_commands-Commanded args true w r =
        Ensures->>= _ (Commanded a sock w true) _ (do_list os rounds sock) w (Ensures-refl _)
          (λ shown v e.
            after_list-Commanded w shown.0 shown.1 v (names_none a.get_file (r.if_list refl)) e)

  module _ (args : List Bytes) (list_mode : Bool) (a : ClientArguments)
      (ready : IsReady args list_mode a) (w : os.World) where
    on_connect-Ran :
        (sock : Socket) (w' w'' : os.World) (connected : Bool)
        → Socket.create_tcp os w ≡ (sock, w')
        → is_valid sock ≡ true
        → Socket.connect os sock a.host a.port w' ≡ (connected, w'')
        → Ensures (Ran list_mode a w) (on_connect os rounds list_mode a sock connected w'')
    unfolding on_connect
    on_connect-Ran sock w' w'' false c v e = no_connection c v e
    on_connect-Ran sock w' w'' true c v e =
        Ensures-map _ (Ran list_mode a w) _ (λ r h. commanded c v e h)
          (run_commands-Commanded a sock args list_mode w'' ready)

    on_socket-Ran :
        (sock : Socket) (w' : os.World) (valid : Bool)
        → Socket.create_tcp os w ≡ (sock, w')
        → is_valid sock ≡ valid
        → Ensures (Ran list_mode a w) (on_socket os rounds list_mode a valid sock w')
    unfolding on_socket
    on_socket-Ran sock w' false c v = no_socket c v
    on_socket-Ran sock w' true c v = on_connect-Ran sock w' _ _ c v refl

    invoke-Ran : Ensures (Ran list_mode a w) (invoke os rounds (connects list_mode a) w)
    unfolding invoke
    invoke-Ran = on_socket-Ran _ _ _ refl refl

-- If the arguments say that the client connects, the process ends with code 1 if there is no socket or
-- no connection, and otherwise as its one command does: with code 0 just if `do_list` in list mode, or
-- else `do_get` with the file and the directory of the arguments, returns true, with code 1 just if it
-- returns false, and by an uncaught exception if it throws. Unless it throws, the socket is closed.
pub client_main-Ran :
    (os : Os) (rounds : ℕ) (args : List Bytes) (list_mode : Bool) (a : ClientArguments)
    (w : os.World) (r : Exit × os.World)
    → read_client_arguments args ≡ connects list_mode a
    → client_main os rounds args w ≡ some r
    → Ran os rounds list_mode a w r
unfolding client_main
client_main-Ran os rounds args list_mode a w r read e =
    Ensures-some (Ran os rounds list_mode a w) (client_main os rounds args w) r
      (rw (read, client_main)
        (invoke-Ran os rounds args list_mode a (read_client_arguments-IsReady args list_mode a read)
          w))
      e
