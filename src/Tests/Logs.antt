-- ===== src/Tests/Logs.antt =====
-- The logger at concrete inputs.
use multi_client_media_strea.Base.{true, false, List, [], ◌∷◌, ◌++◌, ◌≡◌, refl, some, Bytes, codes}
use multi_client_media_strea.Logger
use multi_client_media_strea.Logger.Lines.{Keeps, Logged, run_calls-Logged}
use multi_client_media_strea.Logger.{
  LogSystem, Logger, LogCall, change_level, say, debug, info, warn, error, run_calls, init,
  default_logger,
}
use multi_client_media_strea.Protocol.Decimal

pub record Desk : Type 0 where
  pub file : Bytes
  pub console : Bytes

-- One log file, no terminal, and a clock that stands at 1000.007 seconds.
abbrev pub desk_system : LogSystem
desk_system = record {
  World = Desk;
  now = λ w. (1000007000000, w);
  localtime_r =
      λ seconds w. record { year = 1970; month = 1; day = 1; hour = 0; minute = 16; second = 40 };
  thread_id = λ w. codes "1";
  isatty = λ w. false;
  open_append = λ path w. (some 0, w);
  append = λ h b w. record w { file = w.file ++ b };
  close = λ h w. w;
  print = λ b w. record w { console = w.console ++ b };
}

abbrev desk_keeps : Keeps desk_system
desk_keeps = record {
  file_text = λ h w. w.file;
  console_text = λ w. w.console;
  append_file = λ h b w. refl;
  append_console = λ h b w. refl;
  print_file = λ h b w. refl;
  print_console = λ b w. refl;
  now_file = λ h w. refl;
  now_console = λ w. refl;
}

abbrev calls : List LogCall
calls =
    say debug (codes "hidden" ∷ [])
    ∷ say warn (codes "session " ∷ codes "1" ∷ [])
    ∷ change_level error
    ∷ say info (codes "late" ∷ [])
    ∷ []

abbrev logger : Logger
logger = record default_logger { file_stream = some 0 }

abbrev line : Bytes
line = codes "[1970-01-01 00:16:40.007] [WARN ] [T:1] session 1\n"

opened :
    init desk_system (codes "log") info true default_logger (record { file = []; console = [] })
    ≡ (logger, record { file = []; console = [] })
unfolding init
opened = refl

logged :
    run_calls desk_system calls logger (record { file = codes "old\n"; console = [] })
    ≡ (record logger { min_level = error }, record { file = codes "old\n" ++ line; console = line })
unfolding run_calls Logger.set_level Logger.log Logger.log_string Logger.write_entry
    Logger.write_file Logger.write_console Logger.console_line Logger.plain_line
    Logger.format_time_now Logger.format_time Logger.padded Decimal.to_string Decimal.digits
logged = refl

run_calls-Logged_example :
    Logged desk_system desk_keeps calls logger
      (record { file = codes "old\n"; console = [] })
      (record logger { min_level = error })
      (record { file = codes "old\n" ++ line; console = line })
run_calls-Logged_example = run_calls-Logged desk_system desk_keeps calls logger _ _ _ logged
