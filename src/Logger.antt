-- ===== src/Logger.antt =====
-- src/Logger.cpp and include/streamer/Logger.hpp: the levels, the lines and where they go. Every
-- call holds the mutex from its start to its end, so the calls of all threads are one sequence.
pub mod Lines
use multi_client_media_strea.Base.{
  ℕ, zero, suc, ◌-◌, ◌/◌, ◌%◌, ◌^◌, Bool, true, false, List, [], ◌∷◌, ◌++◌, Option, none, some,
  Bytes, codes, ltb, length, if◌then◌else◌,
}
use multi_client_media_strea.Protocol.Decimal.{to_string}

-- `enum class LogLevel` of Types.hpp.
pub data LogLevel : Type 0 where
  debug info warn error : LogLevel

-- `static_cast<int>(level)`
abbrev pub level_number : LogLevel → ℕ
level_number debug = 0
level_number info = 1
level_number warn = 2
level_number error = 3

abbrev pub level_to_string : LogLevel → Bytes
level_to_string debug = codes "DEBUG"
level_to_string info = codes "INFO "
level_to_string warn = codes "WARN "
level_to_string error = codes "ERROR"

-- The escape character and a code behind it.
abbrev pub escape : Bytes → Bytes
escape code = 27 ∷ code

abbrev pub level_to_color : LogLevel → Bytes
level_to_color debug = escape (codes "[36m")
level_to_color info = escape (codes "[32m")
level_to_color warn = escape (codes "[33m")
level_to_color error = escape (codes "[31m")

abbrev pub reset : Bytes
reset = escape (codes "[0m")

-- What `put_time` reads of a `std::tm`; months count from 1.
pub record Calendar : Type 0 where
  pub year : ℕ
  pub month : ℕ
  pub day : ℕ
  pub hour : ℕ
  pub minute : ℕ
  pub second : ℕ

-- What the logger takes from the system. `now` is in nanoseconds since the epoch, `localtime_r`
-- reads seconds, and `thread_id` is the calling thread's id as `<<` prints it. `append` writes to a
-- stream and flushes it; `print` does so for std::cout.
pub record LogSystem : Type 1 where
  pub World : Type 0
  pub now : World → ℕ × World
  pub localtime_r : ℕ → World → Calendar
  pub thread_id : World → Bytes
  pub isatty : World → Bool
  pub open_append : Bytes → World → Option ℕ × World
  pub append : ℕ → Bytes → World → World
  pub close : ℕ → World → World
  pub print : Bytes → World → World

-- `file_stream` is the open stream, if any.
pub record Logger : Type 0 where
  pub min_level : LogLevel
  pub enable_console : Bool
  pub file_stream : Option ℕ
  pub is_tty : Bool

-- The logger before `init`.
abbrev pub default_logger : Logger
default_logger = record {
  min_level = info;
  enable_console = true;
  file_stream = none;
  is_tty = false;
}

-- What a line is made of.
pub record Entry : Type 0 where
  pub timestamp : Bytes
  pub thread : Bytes
  pub level : LogLevel
  pub message : Bytes

abbrev pub zeros : ℕ → Bytes
zeros zero = []
zeros (suc n) = b'0' ∷ zeros n

-- A number with zeros in front of it, up to a width.
unfoldable pub padded : ℕ → ℕ → Bytes
padded width n = zeros (width - length (to_string n)) ++ to_string n

-- "%Y-%m-%d %H:%M:%S" and the milliseconds.
unfoldable pub format_time : Calendar → ℕ → Bytes
unfolding padded
format_time bt ms =
    to_string bt.year
    ++ (b'-' ∷ padded 2 bt.month)
    ++ (b'-' ∷ padded 2 bt.day)
    ++ (b' ' ∷ padded 2 bt.hour)
    ++ (b':' ∷ padded 2 bt.minute)
    ++ (b':' ∷ padded 2 bt.second)
    ++ (b'.' ∷ padded 3 ms)

unfoldable pub plain_line : Entry → Bytes
plain_line e =
    codes "["
    ++ (e.timestamp
        ++ (codes "] ["
            ++ (level_to_string e.level
                ++ (codes "] [T:" ++ (e.thread ++ (codes "] " ++ e.message))))))

-- The line on a terminal.
unfoldable pub color_line : Entry → Bytes
color_line e =
    escape (codes "[90m[")
    ++ (e.timestamp
        ++ (codes "]"
            ++ (reset
                ++ (codes " "
                    ++ (level_to_color e.level
                        ++ (codes "["
                            ++ (level_to_string e.level
                                ++ (codes "]"
                                    ++ (reset
                                        ++ (codes " "
                                            ++ (escape (codes "[35m[T:")
                                                ++ (e.thread
                                                    ++ (codes "]"
                                                        ++ (reset
                                                            ++ (codes " "
                                                            ++ e.message)))))))))))))))

unfoldable pub console_line : Bool → Entry → Bytes
unfolding color_line plain_line
console_line true e = color_line e
console_line false e = plain_line e

abbrev pub concat : List Bytes → Bytes
concat [] = []
concat (s ∷ rest) = s ++ concat rest

-- A call of another thread or of this one: `set_level`, or `log` with the texts of its arguments.
pub data LogCall : Type 0 where
  change_level : LogLevel → LogCall
  say : LogLevel → List Bytes → LogCall

unfoldable pub set_level : LogLevel → Logger → Logger
set_level level logger = record logger { min_level = level }

abbrev pub get_level : Logger → LogLevel
get_level logger = logger.min_level

module _ (sys : LogSystem) where
  open sys use {World}

  abbrev close_stream : Option ℕ → World → World
  close_stream none w = w
  close_stream (some h) w = sys.close h w

  -- `init`. It opens no file for an empty path, and it keeps the one that is open.
  unfoldable pub init : Bytes → LogLevel → Bool → Logger → World → Logger × World
  init [] min_level enable_console logger w = (
    record logger { min_level = min_level; enable_console = enable_console; is_tty = sys.isatty w },
    w,
  )
  init (c ∷ path) min_level enable_console logger w =
      let (opened, w') = sys.open_append (c ∷ path) (close_stream logger.file_stream w) in
      (
        record {
          min_level = min_level;
          enable_console = enable_console;
          file_stream = opened;
          is_tty = sys.isatty w;
        },
        w',
      )

  unfoldable pub format_time_now : World → Bytes × World
  unfolding format_time
  format_time_now w =
      let (now, w') = sys.now w in
      (format_time (sys.localtime_r (now / 10 ^ 9) w') (now / 10 ^ 6 % 1000), w')

  unfoldable pub write_file : Option ℕ → Entry → World → World
  unfolding plain_line
  write_file none e w = w
  write_file (some h) e w = sys.append h (plain_line e ++ b'\n' ∷ []) w

  unfoldable pub write_console : Bool → Bool → Entry → World → World
  unfolding console_line
  write_console false is_tty e w = w
  write_console true is_tty e w = sys.print (console_line is_tty e ++ b'\n' ∷ []) w

  -- `log_string` for a message that is not below the level.
  unfoldable pub write_entry : Logger → LogLevel → Bytes → World → World
  unfolding format_time_now write_file write_console
  write_entry logger level message w =
      let (timestamp, w') = format_time_now w in
      let e : Entry = record {
        timestamp = timestamp;
        thread = sys.thread_id w';
        level = level;
        message = message;
      } in
      write_console logger.enable_console logger.is_tty e (write_file logger.file_stream e w')

  unfoldable pub log_string : Logger → LogLevel → Bytes → World → World
  unfolding write_entry
  log_string logger level message w =
      if ltb (level_number level) (level_number logger.min_level)
      then w
      else write_entry logger level message w

  unfoldable pub log : Logger → LogLevel → List Bytes → World → World
  unfolding log_string
  log logger level parts w = log_string logger level (concat parts) w

  -- The calls that the program makes, in the order in which they get the mutex.
  unfoldable pub run_calls : List LogCall → Logger → World → Logger × World
  unfolding set_level log
  run_calls [] logger w = (logger, w)
  run_calls (change_level level ∷ calls) logger w = run_calls calls (set_level level logger) w
  run_calls (say level parts ∷ calls) logger w = run_calls calls logger (log logger level parts w)

  -- The destructor.
  unfoldable pub destroy : Logger → World → World
  destroy logger w = close_stream logger.file_stream w
