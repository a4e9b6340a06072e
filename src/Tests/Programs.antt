-- ===== src/Tests/Programs.antt =====
-- The client's program at concrete inputs.
use multi_client_media_strea.Base.{
  false, true, List, [], ◌∷◌, ◌≡◌, refl, some, Bytes, codes, bytes_eq, to_int,
}
use multi_client_media_strea.Client
use multi_client_media_strea.Client.Arguments
use multi_client_media_strea.Client.Arguments.Ready.{IsReady, read_client_arguments-IsReady}
use multi_client_media_strea.Client.Arguments.{
  ClientArguments, connects, default_arguments, read_client_arguments,
}
use multi_client_media_strea.Client.Program
use multi_client_media_strea.Client.Program.Ran.{Ran, client_main-Ran}
use multi_client_media_strea.Client.Program.{exits, client_main}
use multi_client_media_strea.CommandLine
use multi_client_media_strea.Os.{Os}
use multi_client_media_strea.Protocol.Trim
use multi_client_media_strea.Socket
use multi_client_media_strea.Tests.Fetches.{asking, fetched, get_code}
use multi_client_media_strea.Tests.Machine.{machine}

unfoldable arguments_code : Unit {0}
unfolding bytes_eq to_int Arguments.client_option Arguments.has_list Arguments.set_positional
    Arguments.list_argument Arguments.set_value Arguments.list_arguments Arguments.flag_arguments
    Arguments.get_arguments Arguments.check_arguments Arguments.read_client_arguments
    CommandLine.atoi CommandLine.atoi_signed Client.read_digits Trim.skip_spaces Trim.is_space
    Trim.is_empty
arguments_code = tt

abbrev args : List Bytes
args = codes "127.0.0.1" ∷ codes "8080" ∷ codes "a.txt" ∷ codes "out" ∷ []

abbrev wanted : ClientArguments
wanted = record default_arguments { get_file = codes "a.txt"; output_dir = codes "out" }

args_read : read_client_arguments args ≡ connects false wanted
unfolding arguments_code
args_read = refl

-- The port -1 becomes 65535; a flag of the mode that fetches leaves its value to be the host.
args_list :
    read_client_arguments (codes "-l" ∷ codes "-p" ∷ codes "-1" ∷ codes "-o" ∷ codes "dir" ∷ [])
    ≡ connects true (record default_arguments { host = codes "dir"; port = 65535 })
unfolding arguments_code
args_list = refl

read_client_arguments-IsReady_example : IsReady args false wanted
read_client_arguments-IsReady_example = read_client_arguments-IsReady args false wanted args_read

-- A system on which addresses can be read.
abbrev dialing : Os
dialing = record machine { inet_pton = λ host. some 1 }

main_runs : client_main dialing 30 args asking ≡ some (exits 0, fetched)
unfolding arguments_code get_code Program.client_main Program.invoke Program.on_socket
    Program.on_connect Program.run_commands Program.run_get Program.after_get Program.finish_main
    Socket.create_tcp Socket.connect Socket.close
main_runs = refl

client_main-Ran_example : Ran dialing 30 false wanted asking (exits 0, fetched)
client_main-Ran_example = client_main-Ran dialing 30 args false wanted asking _ args_read main_runs
