-- ===== src/Client/Program.antt =====
-- src/client_main.cpp, main: the client from its command line to its exit code. What it prints is
-- left out.
pub mod Ran
use multi_client_media_strea.Base.{
  ℕ, Bool, true, false, not, List, [], ◌∷◌, Option, some, Bytes, if◌then◌else◌,
}
use multi_client_media_strea.Client.Arguments.{
  ClientArguments, Invocation, shows_usage, rejected, connects, read_client_arguments,
}
use multi_client_media_strea.Client.Rows.{Row, do_list}
use multi_client_media_strea.Client.{Verdict, gave_up, completed, threw, do_get}
use multi_client_media_strea.Os.{Os}
use multi_client_media_strea.Os.Monad.{M, ◌>>=◌, return}
use multi_client_media_strea.Protocol.Trim.{is_empty}
use multi_client_media_strea.Socket
use multi_client_media_strea.Socket.{Socket, is_valid}

-- How the process ends: with a code, or because an exception leaves `main`.
pub data Exit : Type 0 where
  exits : ℕ → Exit
  terminates : Exit

module _ (os : Os) (rounds : ℕ) where
  open os use {World}

  -- `sock.close(); return ok ? 0 : 1;`
  unfoldable pub finish_main : Socket → Bool → M World Exit
  finish_main sock ok w = some (exits (if ok then 0 else 1), (Socket.close os sock w).1)

  unfoldable pub after_get : Socket → Verdict → M World Exit
  unfolding finish_main
  after_get sock gave_up = finish_main sock false
  after_get sock completed = finish_main sock true
  after_get sock threw = return terminates

  -- The second of the two commands, when `ok` is still true.
  unfoldable pub run_get : Socket → ClientArguments → M World Exit
  unfolding after_get
  run_get sock a w = elim (is_empty a.get_file) [
    | true ↦ finish_main sock true w
    | false ↦ (do_get os rounds sock a.get_file a.output_dir >>= after_get sock) w
  ]

  unfoldable pub after_list : Socket → ClientArguments → Verdict × List Row → M World Exit
  unfolding run_get
  after_list sock a (gave_up, rows) = finish_main sock false
  after_list sock a (completed, rows) = run_get sock a
  after_list sock a (threw, rows) = return terminates

  unfoldable pub run_commands : Bool → Socket → ClientArguments → M World Exit
  unfolding after_list
  run_commands false sock a = run_get sock a
  run_commands true sock a = do listed ← do_list os rounds sock; after_list sock a listed

  -- The rest of `main` once `connect` has returned; a return destroys the socket.
  unfoldable pub on_connect : Bool → ClientArguments → Socket → Bool → M World Exit
  unfolding run_commands
  on_connect list_mode a sock false w = some (exits 1, (Socket.destroy os sock w).1)
  on_connect list_mode a sock true w = run_commands list_mode sock a w

  unfoldable pub on_socket : Bool → ClientArguments → Bool → Socket → M World Exit
  unfolding on_connect
  on_socket list_mode a false sock w = some (exits 1, (Socket.destroy os sock w).1)
  on_socket list_mode a true sock w =
      let (connected, w') = Socket.connect os sock a.host a.port w in
      on_connect list_mode a sock connected w'

  unfoldable pub invoke : Invocation → M World Exit
  unfolding on_socket
  invoke shows_usage w = some (exits 0, w)
  invoke rejected w = some (exits 1, w)
  invoke (connects list_mode a) w =
      let (sock, w') = Socket.create_tcp os w in on_socket list_mode a (is_valid sock) sock w'

  -- `main`, from the arguments behind the program's name.
  unfoldable pub client_main : List Bytes → M World Exit
  unfolding invoke
  client_main args = invoke (read_client_arguments args)
