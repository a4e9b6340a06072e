-- ===== src/CommandLine.antt =====
-- src/server_main.cpp: reading the server's command line.
pub mod Usable
pub mod Launch
pub mod Serving
use multi_client_media_strea.Base.{
  ℕ, ◌+◌, ◌-◌, ◌*◌, ◌%◌, ◌^◌, Bool, true, false, ◌||◌, List, [], ◌∷◌, Option, none, some, Bytes,
  codes, bytes_eq, ℤ, pos, to_int, min, ◌==◌, if◌then◌else◌,
}
use multi_client_media_strea.Client.{read_digits, read_unsigned}
use multi_client_media_strea.Protocol.Trim.{skip_spaces}
use multi_client_media_strea.Server.{ServerConfig}

-- The values that a `ServerConfig` has when no option is given.
abbrev pub default_config : ServerConfig
default_config = record {
  host = codes "0.0.0.0";
  port = 8080;
  media_dir = codes "media";
  chunk_size = 64 * 1024;
  backlog = pos 128;
  socket_timeout_sec = pos 30;
  log_file = codes "logs/server.log";
}

-- `std::strtoul` and `std::strtoull` to the base 10: what `>>` leaves, without the flag.
unfoldable pub strtoul : Bytes → ℕ
strtoul s = (read_unsigned s).0

-- `std::atoi`: the cast of a `long`, which stops at its bounds.
unfoldable pub atoi_signed : Bytes → ℤ
atoi_signed [] = pos 0
atoi_signed (c ∷ s) =
    if c == b'+'
    then to_int (min (read_digits 0 s) (2 ^ 63 - 1))
    else if c == b'-'
    then to_int (2 ^ 64 - min (read_digits 0 s) (2 ^ 63))
    else to_int (min (read_digits 0 (c ∷ s)) (2 ^ 63 - 1))

unfoldable pub atoi : Bytes → ℤ
unfolding atoi_signed
atoi s = atoi_signed (skip_spaces s)

pub data CommandOption : Type 0 where
  help port media_dir chunk_size backlog log_file log_level other_option : CommandOption

unfoldable pub option_of : Bytes → CommandOption
option_of arg =
    if bytes_eq arg (codes "-h") || bytes_eq arg (codes "--help")
    then help
    else if bytes_eq arg (codes "-p") || bytes_eq arg (codes "--port")
    then port
    else if bytes_eq arg (codes "-d") || bytes_eq arg (codes "--media-dir")
    then media_dir
    else if bytes_eq arg (codes "-c") || bytes_eq arg (codes "--chunk-size")
    then chunk_size
    else if bytes_eq arg (codes "-b") || bytes_eq arg (codes "--backlog")
    then backlog
    else if bytes_eq arg (codes "-l") || bytes_eq arg (codes "--log-file")
    then log_file
    else if bytes_eq arg (codes "--log-level")
    then log_level
    else other_option

-- What an option with its value makes of the configuration and the name of the log level; `none`
-- is a return with code 1.
unfoldable pub set_option :
    CommandOption → Bytes → ServerConfig → Bytes → Option (ServerConfig × Bytes)
set_option port value config level =
    let n = strtoul value % 2 ^ 16 in
    if n == 0 then none else some (record config { port = n }, level)
set_option media_dir value config level = some (record config { media_dir = value }, level)
set_option chunk_size value config level =
    let n = strtoul value in if n == 0 then none else some (record config { chunk_size = n }, level)
set_option backlog value config level = some (record config { backlog = atoi value }, level)
set_option log_file value config level = some (record config { log_file = value }, level)
set_option log_level value config level = some (config, value)
set_option help value config level = none
set_option other_option value config level = none

-- How the loop over the arguments ends: with the usage, with an error, or with a configuration.
pub data CommandLine : Type 0 where
  show_usage bad_usage : CommandLine
  launch : ServerConfig → Bytes → CommandLine

abbrev pub is_help : CommandOption → Bool
is_help help = true
is_help _ = false

-- The loop of `main`, from the arguments behind the program's name.
unfoldable pub read_arguments : List Bytes → ServerConfig → Bytes → CommandLine
unfolding set_option
read_arguments [] config level = launch config level
read_arguments (arg ∷ []) config level = if is_help (option_of arg) then show_usage else bad_usage
read_arguments (arg ∷ (value ∷ rest)) config level = elim (is_help (option_of arg)) [
  | true ↦ show_usage
  | false ↦ elim (set_option (option_of arg) value config level) [
    | none ↦ bad_usage
    | some (config', level') ↦ read_arguments rest config' level'
  ]
]
