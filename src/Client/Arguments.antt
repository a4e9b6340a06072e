-- ===== src/Client/Arguments.antt =====
-- src/client_main.cpp, main: reading the client's command line, from the arguments behind the
-- program's name.
pub mod Ready
use multi_client_media_strea.Base.{
  ℕ, ◌-◌, ◌%◌, ◌^◌, Bool, true, false, ◌&&◌, ◌||◌, not, List, [], ◌∷◌, Option, none, some, Bytes,
  codes, bytes_eq, ℤ, pos, negsuc, ◌==◌, leb, length, if◌then◌else◌,
}
use multi_client_media_strea.CommandLine.{atoi}
use multi_client_media_strea.Protocol.Trim.{is_empty}

pub record ClientArguments : Type 0 where
  pub host : Bytes
  pub port : ℕ
  pub get_file : Bytes
  pub output_dir : Bytes

abbrev pub default_arguments : ClientArguments
default_arguments = record {
  host = codes "127.0.0.1";
  port = 8080;
  get_file = [];
  output_dir = codes "downloads";
}

-- `static_cast<uint16_t>`
abbrev pub to_uint16 : ℤ → ℕ
to_uint16 (pos n) = n % 2 ^ 16
to_uint16 (negsuc n) = 2 ^ 16 - 1 - n % 2 ^ 16

-- `static_cast<uint16_t>(std::atoi(s))`
abbrev pub to_port : Bytes → ℕ
to_port s = to_uint16 (atoi s)

abbrev pub names_help : Bytes → Bool
names_help arg = bytes_eq arg (codes "-h") || bytes_eq arg (codes "--help")

abbrev pub names_list : Bytes → Bool
names_list arg = bytes_eq arg (codes "-l") || bytes_eq arg (codes "--list")

-- `arg[0] != '-'`
abbrev pub is_positional : Bytes → Bool
is_positional [] = true
is_positional (c ∷ s) = not (c == b'-')

pub data ClientOption : Type 0 where
  server port get output_dir other_option : ClientOption

unfoldable pub client_option : Bytes → ClientOption
client_option arg =
    if bytes_eq arg (codes "-s") || bytes_eq arg (codes "--server")
    then server
    else if bytes_eq arg (codes "-p") || bytes_eq arg (codes "--port")
    then port
    else if bytes_eq arg (codes "-g") || bytes_eq arg (codes "--get")
    then get
    else if bytes_eq arg (codes "-o") || bytes_eq arg (codes "--output-dir")
    then output_dir
    else other_option

-- The loop that looks for `--list`.
unfoldable pub has_list : List Bytes → Bool
has_list [] = false
has_list (arg ∷ rest) = names_list arg || has_list rest

-- A positional argument of the list mode: the host first, then the port. The flag is `host_set`.
unfoldable pub set_positional : Bytes → Bool × ClientArguments → Bool × ClientArguments
set_positional arg (false, a) = (true, record a { host = arg })
set_positional arg (true, a) = (true, record a { port = to_port arg })

-- An argument of the list mode that is no `--server` and no `--port`.
unfoldable pub list_argument : Bytes → Bool × ClientArguments → Bool × ClientArguments
unfolding set_positional
list_argument arg state =
    if names_list arg then state else if is_positional arg then set_positional arg state else state

-- What an option makes of the arguments with its value.
unfoldable pub set_value : ClientOption → Bytes → ClientArguments → ClientArguments
set_value server value a = record a { host = value }
set_value port value a = record a { port = to_port value }
set_value get value a = record a { get_file = value }
set_value output_dir value a = record a { output_dir = value }
set_value other_option value a = a

-- The options of the list mode that take a value.
abbrev pub is_address : ClientOption → Bool
is_address server = true
is_address port = true
is_address _ = false

abbrev pub is_flag : ClientOption → Bool
is_flag other_option = false
is_flag _ = true

-- The loop of the list mode. A flag that comes last is left without a value.
unfoldable pub list_arguments : List Bytes → Bool × ClientArguments → Bool × ClientArguments
unfolding list_argument set_value
list_arguments [] state = state
list_arguments (arg ∷ []) state =
    if is_address (client_option arg) then state else list_argument arg state
list_arguments (arg ∷ (value ∷ rest)) (host_set, a) = elim (is_address (client_option arg)) [
  | true ↦ list_arguments rest (host_set, set_value (client_option arg) value a)
  | false ↦ list_arguments (value ∷ rest) (list_argument arg (host_set, a))
]

-- The loop of the mode with flags; `none` is a return with code 1.
unfoldable pub flag_arguments : List Bytes → ClientArguments → Option ClientArguments
unfolding set_value
flag_arguments [] a = some a
flag_arguments (arg ∷ []) a = if is_flag (client_option arg) then some a else none
flag_arguments (arg ∷ (value ∷ rest)) a = elim (is_flag (client_option arg)) [
  | true ↦ flag_arguments rest (set_value (client_option arg) value a)
  | false ↦ none
]

-- The modes without `--list`: three arguments or more of which the first is no flag, or flags.
unfoldable pub get_arguments : List Bytes → ClientArguments → Option ClientArguments
unfolding flag_arguments
get_arguments (host ∷ (port_text ∷ (file ∷ []))) a =
    if is_positional host
    then some (record a { host = host; port = to_port port_text; get_file = file })
    else flag_arguments (host ∷ (port_text ∷ (file ∷ []))) a
get_arguments (host ∷ (port_text ∷ (file ∷ (dir ∷ rest)))) a =
    if is_positional host
    then some
        (record a { host = host; port = to_port port_text; get_file = file; output_dir = dir })
    else flag_arguments (host ∷ (port_text ∷ (file ∷ (dir ∷ rest)))) a
get_arguments args a = flag_arguments args a

-- How `main` goes on: it shows the usage and returns 0, it returns 1, or it connects, in list mode or
-- not.
pub data Invocation : Type 0 where
  shows_usage rejected : Invocation
  connects : Bool → ClientArguments → Invocation

-- The two checks behind the loops.
unfoldable pub check_arguments : Bool → Option ClientArguments → Invocation
check_arguments list_mode none = rejected
check_arguments list_mode (some a) =
    if not list_mode && is_empty a.get_file
    then rejected
    else if a.port == 0
    then rejected
    else connects list_mode a

abbrev pub first_is_help : List Bytes → Bool
first_is_help [] = false
first_is_help (arg ∷ rest) = names_help arg

unfoldable pub read_client_arguments : List Bytes → Invocation
unfolding has_list list_arguments get_arguments check_arguments
read_client_arguments args =
    let listed = some (list_arguments args (false, default_arguments)).1 in
    let gets = get_arguments args default_arguments in
    if first_is_help args
    then shows_usage
    else if has_list args
    then check_arguments true listed
    else check_arguments false gets
