-- ===== src/CommandLine/Launch.antt =====
-- src/server_main.cpp, main: from the command line to the start of the server. What it prints is left
-- out.
use multi_client_media_strea.Base.{
  ℕ, Bool, true, false, List, Bytes, codes, bytes_eq, if◌then◌else◌,
}
use multi_client_media_strea.CommandLine.{
  CommandLine, show_usage, bad_usage, launch, default_config, read_arguments,
}
use multi_client_media_strea.Logger
use multi_client_media_strea.Logger.{
  LogSystem, Logger, LogLevel, debug, info, warn, error, default_logger,
}
use multi_client_media_strea.Os.{Os}
use multi_client_media_strea.Server
use multi_client_media_strea.Server.{Server, ServerConfig, make_server}

-- The level that a name stands for; a name that is none of the four stands for INFO.
unfoldable pub level_of : Bytes → LogLevel
level_of name =
    if bytes_eq name (codes "debug")
    then debug
    else if bytes_eq name (codes "info")
    then info
    else if bytes_eq name (codes "warn")
    then warn
    else if bytes_eq name (codes "error")
    then error
    else info

-- How `main` goes on: it returns a code, or the server is in its accept loop, behind which it
-- returns 0.
pub data Launched : Type 0 where
  returns : ℕ → Launched
  serves : Server → Logger → Launched

module _ (os : Os) (sys : LogSystem) where
  abbrev World : Type 0
  World = os.World × sys.World

  abbrev pub started : Logger → (Bool × Server) × os.World → sys.World → Launched × World
  started logger ((false, server), w) u = (returns 1, (w, u))
  started logger ((true, server), w) u = (serves server logger, (w, u))

  -- `main` behind the loop over the arguments.
  unfoldable pub launch_server : ServerConfig → Bytes → World → Launched × World
  unfolding level_of
  launch_server config level (w, u) =
      let (logger, u') = Logger.init sys config.log_file (level_of level) true default_logger u in
      started logger (Server.start os (make_server config) w) u'

  abbrev pub follow : CommandLine → World → Launched × World
  follow show_usage w = (returns 0, w)
  follow bad_usage w = (returns 1, w)
  follow (launch config level) w = launch_server config level w

  -- `main`, from the arguments behind the program's name.
  unfoldable pub server_main : List Bytes → World → Launched × World
  unfolding launch_server
  server_main args w = follow (read_arguments args default_config (codes "info")) w
