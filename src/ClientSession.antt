-- ===== src/ClientSession.antt =====
-- src/ClientSession.cpp and include/streamer/ClientSession.hpp: one client's connection.
-- `is_active_` is shared with the thread that calls `stop`. A call of `stop` by that thread takes
-- effect here at a load of `is_active_`: the operating system says at each load whether one has
-- come since the load before. Log lines and the transfer's timing are left out.
pub mod Keeps
pub mod Steps
pub mod Silence
pub mod Stream
pub mod Get
pub mod Ending
pub mod Finish
pub mod Listing
pub mod Bounds
pub mod Isolation
pub mod Exchange
pub mod Conversation
pub mod Complete
use multi_client_media_strea.Base.{
  ℕ, zero, suc, ◌+◌, ◌-◌, ◌*◌, Bool, true, false, ◌&&◌, [], ◌∷◌, Option, none, some, Bytes, codes,
  length, min, ltb, ◌==◌, if◌then◌else◌,
}
use multi_client_media_strea.FileManager.{FileManager, list_files, get_file_size, open_binary_file}
use multi_client_media_strea.Os.{Os}
use multi_client_media_strea.Os.Monad.{M, ◌>>=◌, return, lift}
use multi_client_media_strea.Protocol.{
  Request, CommandType, list, get, quit, unknown, parse_request, build_list_response,
  build_get_header, build_error_response, build_ok_response,
}
use multi_client_media_strea.Socket
use multi_client_media_strea.Socket.{Socket, send_all, send_string, recv_line, default_max_length}

-- DEFAULT_CHUNK_SIZE of Types.hpp.
abbrev pub default_chunk_size : ℕ
default_chunk_size = 64 * 1024

pub record ClientSession : Type 0 where
  pub session_id : ℕ
  pub socket : Socket
  pub client_ip : Bytes
  pub client_port : ℕ
  pub chunk_size : ℕ
  pub is_active : Bool

-- The constructor.
unfoldable pub make_session : ℕ → Socket → Bytes → ℕ → ℕ → ClientSession
make_session session_id socket client_ip client_port chunk_size = record {
  session_id = session_id;
  socket = socket;
  client_ip = client_ip;
  client_port = client_port;
  chunk_size = if ltb 0 chunk_size then chunk_size else default_chunk_size;
  is_active = true;
}

-- An open `std::ifstream`: `good()` fails after a read that comes up short.
pub record FileStream : Type 0 where
  pub handle : ℕ
  pub good : Bool

abbrev pub deactivate : ClientSession → ClientSession
deactivate s = record s { is_active = false }

module _ (os : Os) where
  open os use {World}

  unfoldable pub stop : ClientSession → World → ClientSession × World
  stop s w =
      let w₁ = Socket.shutdown os s.socket w in
      let (socket', w₂) = Socket.close os s.socket w₁ in
      if s.is_active then (record s { is_active = false; socket = socket' }, w₂) else (s, w)

  -- The destructor.
  unfoldable pub destroy : ClientSession → World → ClientSession × World
  unfolding stop
  destroy s w = stop s w

  -- A load of `is_active_`, behind a `stop` of the other thread if one has come.
  unfoldable pub load_active : ClientSession → M World ClientSession
  unfolding stop
  load_active s w =
      let (asked, w') = os.stop_requested w in if asked then some (stop s w') else some (s, w')

  -- `read` and `gcount` on the stream.
  unfoldable pub read_stream : FileStream → ℕ → World → (Bytes × FileStream) × World
  read_stream stream n w =
      let (chunk, w') = os.read stream.handle n w in
      ((chunk, record stream { good = stream.good && length chunk == n }), w')

  -- If the client is gone the handler clears `is_active_` and returns.
  unfoldable pub if_sent : ClientSession → Bool → M World ClientSession → M World ClientSession
  if_sent s false rest = return (deactivate s)
  if_sent s true rest = rest

  -- `std::vector<char> buffer(chunk_size_)`. If the memory cannot be had it throws, nothing catches
  -- that, and the process ends: there is no result.
  unfoldable pub with_buffer : ClientSession → M World ClientSession → M World ClientSession
  with_buffer s rest w = if os.allocates s.chunk_size w then rest w else none

  -- `rounds` bounds each loop of the socket.
  module _ (rounds : ℕ) where
    -- The rest of a round once the chunk is read; `again` is the next round.
    unfoldable pub send_chunk :
        (ClientSession → FileStream → ℕ → M World ClientSession)
        → ClientSession
        → ℕ
        → Bytes × FileStream
        → M World ClientSession
    unfolding if_sent
    send_chunk again s total_sent ([], stream) = return s
    send_chunk again s total_sent (c ∷ cs, stream) = do
      (all, out) ← send_all os rounds s.socket (c ∷ cs)
      if_sent s all (again s stream (total_sent + length (c ∷ cs)))

    -- The body of the transfer loop of `handle_get`, under the value of its test.
    unfoldable pub stream_body :
        (ClientSession → FileStream → ℕ → M World ClientSession)
        → ℕ
        → FileStream
        → ℕ
        → ClientSession
        → Bool
        → M World ClientSession
    unfolding send_chunk
    stream_body again file_size stream total_sent s false = return s
    stream_body again file_size stream total_sent s true = do
      r ← lift (read_stream stream (min s.chunk_size (file_size - total_sent)))
      send_chunk again s total_sent r

    -- A round of the transfer loop, once `is_active_` is loaded.
    unfoldable pub stream_round :
        (ClientSession → FileStream → ℕ → M World ClientSession)
        → ℕ
        → FileStream
        → ℕ
        → ClientSession
        → M World ClientSession
    unfolding stream_body read_stream
    stream_round again file_size stream total_sent s =
        stream_body again file_size stream total_sent s
          (s.is_active && ltb total_sent file_size && stream.good)

    unfoldable pub stream_loop : ℕ → ℕ → ClientSession → FileStream → ℕ → M World ClientSession
    unfolding stream_round
    stream_loop zero file_size s stream total_sent w = none
    stream_loop (suc fuel) file_size s stream total_sent w =
        (load_active s >>= stream_round (stream_loop fuel file_size) file_size stream total_sent) w

    -- An error reply; its result is not looked at.
    unfoldable pub reply_error : ClientSession → Bytes → M World ClientSession
    reply_error s message = do
      all ← send_string os rounds s.socket (build_error_response message)
      return s

    -- `handle_get` from the point where the stream is open.
    unfoldable pub send_file : ClientSession → ℕ → ℕ → M World ClientSession
    unfolding stream_loop if_sent with_buffer
    send_file s file_size handle = do
      all ← send_string os rounds s.socket (build_get_header file_size)
      if_sent s all (
          with_buffer s
            (stream_loop rounds file_size s (record { handle = handle; good = true }) 0))

    -- `handle_get` once `open_binary_file` has answered.
    unfoldable pub after_open : ClientSession → ℕ → Option ℕ → M World ClientSession
    unfolding send_file reply_error
    after_open s file_size none = reply_error s (codes "FILE_OPEN_FAILED")
    after_open s file_size (some handle) = send_file s file_size handle

    -- `handle_get` once `get_file_size` has answered.
    unfoldable pub after_size :
        FileManager → ClientSession → Bytes → Option ℕ → M World ClientSession
    unfolding after_open
    after_size fm s filename none = reply_error s (codes "FILE_NOT_FOUND")
    after_size fm s filename (some file_size) = do
      opened ← lift (open_binary_file os fm filename)
      after_open s file_size opened

    unfoldable pub handle_get : FileManager → ClientSession → Bytes → M World ClientSession
    unfolding after_size
    handle_get fm s [] = reply_error s (codes "EMPTY_FILENAME")
    handle_get fm s (c ∷ cs) = do
      opt_size ← lift (get_file_size os fm (c ∷ cs))
      after_size fm s (c ∷ cs) opt_size

    unfoldable pub handle_list : FileManager → ClientSession → M World ClientSession
    unfolding if_sent
    handle_list fm s = do
      files ← lift (list_files os fm)
      all ← send_string os rounds s.socket (build_list_response files)
      if_sent s all (return s)

    -- The `switch` of `run`.
    unfoldable pub respond :
        FileManager → ClientSession → CommandType → Bytes → M World ClientSession
    unfolding handle_list handle_get reply_error
    respond fm s list argument = handle_list fm s
    respond fm s get argument = handle_get fm s argument
    respond fm s quit argument = do
      all ← send_string os rounds s.socket (build_ok_response (codes "BYE"))
      return (deactivate s)
    respond fm s unknown argument = reply_error s (codes "INVALID_REQUEST")

    -- A round of `run`, once `is_active_` is loaded.
    unfoldable pub run_round :
        (ClientSession → M World ClientSession)
        → FileManager
        → ClientSession
        → M World ClientSession
    unfolding respond
    run_round again fm s = elim s.is_active as (λ _. M World ClientSession) [
      | false ↦ return s
      | true ↦ do
        (got, line) ← recv_line os rounds s.socket default_max_length
        elim got as (λ _. M World ClientSession) [
          | false ↦ return s
          | true ↦ do
            let request = parse_request line
            s' ← respond fm s request.type request.argument
            again s'
        ]
    ]

    unfoldable pub run_loop : ℕ → FileManager → ClientSession → M World ClientSession
    unfolding run_round
    run_loop zero fm s w = none
    run_loop (suc fuel) fm s w = (load_active s >>= run_round (run_loop fuel fm) fm) w

    unfoldable pub run : ℕ → FileManager → ClientSession → M World ClientSession
    unfolding run_loop
    run fuel fm s = do
      s' ← run_loop fuel fm (record s { is_active = true })
      socket' ← lift (Socket.close os s'.socket)
      return (record s' { is_active = false; socket = socket' })
