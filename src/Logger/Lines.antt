-- ===== src/Logger/Lines.antt =====
-- What the log file and the console hold: a line for each message that passes the level, in order.
use multi_client_media_strea.Base.{
  ℕ, arith, Bool, true, false, List, [], ◌∷◌, ◌++◌, ◌≡◌, refl, sym, ap, ◌∙◌, Option, none, some,
  Bytes, ltb, map, append_assoc, append-nil, inl, inr, Bool-cases, if◌then◌else◌,
}
use multi_client_media_strea.Logger.{
  LogLevel, level_number, LogSystem, Logger, Entry, plain_line, console_line, concat, LogCall,
  change_level, say, set_level, write_file, write_console, write_entry, log_string, log, run_calls,
  format_time_now,
}

-- Streams and the console keep what is written to them, and the clock writes nothing.
pub record Keeps (sys : LogSystem) : Type 0 where
  pub file_text : ℕ → sys.World → Bytes
  pub console_text : sys.World → Bytes
  pub append_file :
      (h : ℕ) (b : Bytes) (w : sys.World) → file_text h (sys.append h b w) ≡ file_text h w ++ b
  pub append_console :
      (h : ℕ) (b : Bytes) (w : sys.World) → console_text (sys.append h b w) ≡ console_text w
  pub print_file : (h : ℕ) (b : Bytes) (w : sys.World) → file_text h (sys.print b w) ≡ file_text h w
  pub print_console :
      (b : Bytes) (w : sys.World) → console_text (sys.print b w) ≡ console_text w ++ b
  pub now_file : (h : ℕ) (w : sys.World) → file_text h (sys.now w).1 ≡ file_text h w
  pub now_console : (w : sys.World) → console_text (sys.now w).1 ≡ console_text w

-- The messages that are to be logged, with their levels: those that are not below the level at
-- their time.
abbrev pub passing : LogLevel → List LogCall → List (LogLevel × Bytes)
passing min_level [] = []
passing min_level (change_level level ∷ calls) = passing level calls
passing min_level (say level parts ∷ calls) =
    let rest = passing min_level calls in
    if ltb (level_number level) (level_number min_level) then rest else (level, concat parts) ∷ rest

-- The level behind all calls.
abbrev pub last_level : LogLevel → List LogCall → LogLevel
last_level min_level [] = min_level
last_level min_level (change_level level ∷ calls) = last_level level calls
last_level min_level (say _ _ ∷ calls) = last_level min_level calls

abbrev pub content : Entry → LogLevel × Bytes
content e = (e.level, e.message)

abbrev pub text : (Entry → Bytes) → List Entry → Bytes
text line [] = []
text line (e ∷ es) = (line e ++ b'\n' ∷ []) ++ text line es

-- What a console shows that may be off.
abbrev pub shown : Bool → Bool → List Entry → Bytes
shown false is_tty es = []
shown true is_tty es = text (console_line is_tty) es

-- What a run of calls leaves behind, from a logger and a world to a logger and a world.
pub record Logged (sys : LogSystem) (keeps : Keeps sys) (calls : List LogCall) (logger : Logger)
    (w : sys.World) (logger' : Logger) (w' : sys.World) : Type 0 where
  pub entries : List Entry
  pub same : map content entries ≡ passing logger.min_level calls
  pub filed :
      (h : ℕ)
      → logger.file_stream ≡ some h
      → keeps.file_text h w' ≡ keeps.file_text h w ++ text plain_line entries
  pub on_console :
      keeps.console_text w'
      ≡ keeps.console_text w ++ shown logger.enable_console logger.is_tty entries
  pub kept : logger' ≡ record logger { min_level = last_level logger.min_level calls }

module _ (sys : LogSystem) (keeps : Keeps sys) where
  open keeps use {file_text, console_text}

  write_file-text :
      (stream : Option ℕ) (h : ℕ) (e : Entry) (w : sys.World)
      → stream ≡ some h
      → file_text h (write_file sys stream e w) ≡ file_text h w ++ (plain_line e ++ b'\n' ∷ [])
  unfolding write_file
  write_file-text none h e w q = absurd (ground arith)
  write_file-text (some k) h e w q =
      let same : k ≡ h = ground arith in rw same (keeps.append_file h _ w)

  write_file-console :
      (stream : Option ℕ) (e : Entry) (w : sys.World)
      → console_text (write_file sys stream e w) ≡ console_text w
  unfolding write_file
  write_file-console none e w = refl
  write_file-console (some k) e w = keeps.append_console k _ w

  write_console-file :
      (on tty : Bool) (h : ℕ) (e : Entry) (w : sys.World)
      → file_text h (write_console sys on tty e w) ≡ file_text h w
  unfolding write_console
  write_console-file false tty h e w = refl
  write_console-file true tty h e w = keeps.print_file h _ w

  write_console-console :
      (on tty : Bool) (e : Entry) (w : sys.World)
      → console_text (write_console sys on tty e w) ≡ console_text w ++ shown on tty (e ∷ [])
  unfolding write_console
  write_console-console false tty e w = sym (append-nil _)
  write_console-console true tty e w =
      keeps.print_console _ w ∙ ap (λ s. console_text w ++ s) (sym (append-nil _))

  shown-nil : (on tty : Bool) (s : Bytes) → s ≡ s ++ shown on tty []
  shown-nil false tty s = sym (append-nil s)
  shown-nil true tty s = sym (append-nil s)

  shown-cons :
      (on tty : Bool) (e : Entry) (es : List Entry)
      → shown on tty (e ∷ es) ≡ shown on tty (e ∷ []) ++ shown on tty es
  shown-cons false tty e es = refl
  shown-cons true tty e es = ap (λ s. s ++ text (console_line tty) es) (sym (append-nil _))

  abbrev entry_of : LogLevel → Bytes → sys.World → Entry
  entry_of level message w = record {
    timestamp = (format_time_now sys w).0;
    thread = sys.thread_id (format_time_now sys w).1;
    level = level;
    message = message;
  }

  write_entry-file :
      (logger : Logger) (level : LogLevel) (message : Bytes) (w : sys.World) (h : ℕ)
      → logger.file_stream ≡ some h
      → file_text h (write_entry sys logger level message w)
        ≡ file_text h w ++ (plain_line (entry_of level message w) ++ b'\n' ∷ [])
  unfolding write_entry format_time_now
  write_entry-file logger level message w h q =
      write_console-file logger.enable_console logger.is_tty h _ _
      ∙ write_file-text logger.file_stream h _ _ q
      ∙ ap (λ s. s ++ (plain_line (entry_of level message w) ++ b'\n' ∷ [])) (keeps.now_file h w)

  write_entry-console :
      (logger : Logger) (level : LogLevel) (message : Bytes) (w : sys.World)
      → console_text (write_entry sys logger level message w)
        ≡ console_text w
          ++ shown logger.enable_console logger.is_tty (entry_of level message w ∷ [])
  unfolding write_entry format_time_now
  write_entry-console logger level message w =
      write_console-console logger.enable_console logger.is_tty _ _
      ∙ ap (λ s. s ++ shown logger.enable_console logger.is_tty (entry_of level message w ∷ []))
          (write_file-console logger.file_stream _ _ ∙ keeps.now_console w)

  passed_over :
      (level : LogLevel) (parts : List Bytes) (calls : List LogCall) (logger : Logger)
      (w : sys.World) (logger' : Logger) (w' : sys.World)
      → ltb (level_number level) (level_number logger.min_level) ≡ true
      → Logged sys keeps calls logger w logger' w'
      → Logged sys keeps (say level parts ∷ calls) logger w logger' w'
  passed_over level parts calls logger w logger' w' q r = record {
    entries = r.entries;
    same = rw q r.same;
    filed = r.filed;
    on_console = r.on_console;
    kept = r.kept;
  }

  entered :
      (level : LogLevel) (parts : List Bytes) (calls : List LogCall) (logger : Logger)
      (w : sys.World) (logger' : Logger) (w' : sys.World)
      → ltb (level_number level) (level_number logger.min_level) ≡ false
      → Logged sys keeps calls logger (write_entry sys logger level (concat parts) w) logger' w'
      → Logged sys keeps (say level parts ∷ calls) logger w logger' w'
  entered level parts calls logger w logger' w' q r =
      let e = entry_of level (concat parts) w in
      record {
        entries = e ∷ r.entries;
        same = rw q (ap (◌∷◌ (content e)) r.same);
        filed = λ h o.
            r.filed h o
            ∙ ap (λ s. s ++ text plain_line r.entries)
                (write_entry-file logger level (concat parts) w h o)
            ∙ append_assoc (file_text h w) (plain_line e ++ b'\n' ∷ []) _;
        on_console =
            r.on_console
            ∙ ap (λ s. s ++ shown logger.enable_console logger.is_tty r.entries)
                (write_entry-console logger level (concat parts) w)
            ∙ append_assoc (console_text w) _ _
            ∙ ap (λ s. console_text w ++ s)
                (sym (shown-cons logger.enable_console logger.is_tty e r.entries));
        kept = r.kept;
      }

  run_calls-within :
      (calls : List LogCall) (logger : Logger) (w : sys.World)
      → Logged sys keeps calls logger w
          (run_calls sys calls logger w).0
          (run_calls sys calls logger w).1
  unfolding run_calls set_level log log_string
  run_calls-within [] logger w = record {
    entries = [];
    same = refl;
    filed = λ h o. sym (append-nil _);
    on_console = shown-nil logger.enable_console logger.is_tty _;
    kept = refl;
  }
  run_calls-within (change_level level ∷ calls) logger w =
      let r = run_calls-within calls (set_level level logger) w in
      record {
        entries = r.entries;
        same = r.same;
        filed = r.filed;
        on_console = r.on_console;
        kept = r.kept;
      }
  run_calls-within (say level parts ∷ calls) logger w =
      elim (Bool-cases (ltb (level_number level) (level_number logger.min_level))) [
        | inl below ↦
            rw (below, run_calls)
              (passed_over level parts calls logger w _ _ below (run_calls-within calls logger w))
        | inr above ↦
            rw (above, run_calls)
              (entered level parts calls logger w _ _ above
                (run_calls-within calls logger (write_entry sys logger level (concat parts) w)))
      ]

-- Where streams and the console keep what is written to them: after any sequence of calls, of any
-- threads, the open log file and the console, if it is on, hold what they held before and then one
-- line for each message that was not below the level at its time, with its level and its whole text,
-- in the order of the calls, and nothing else. Of the logger only the level has changed.
pub run_calls-Logged :
    (sys : LogSystem) (keeps : Keeps sys) (calls : List LogCall) (logger logger' : Logger)
    (w w' : sys.World)
    → run_calls sys calls logger w ≡ (logger', w')
    → Logged sys keeps calls logger w logger' w'
run_calls-Logged sys keeps calls logger logger' w w' e =
    rw (ap (λ (r : Logger × sys.World). r.0) (sym e), ap (λ (r : Logger × sys.World). r.1) (sym e))
      (run_calls-within sys keeps calls logger w)
