-- ===== src/Client.antt =====
-- src/client_main.cpp: do_get, reading the server's reply and fetching a file. Rows has do_list, and
-- Arguments and Program have main.
pub mod Rows
pub mod Newlines
pub mod Listing
pub mod Listed
pub mod Arguments
pub mod Program
pub mod Reading
pub mod Saving
pub mod Views
pub mod Streamed
pub mod Fetch
pub mod Heard
pub mod Delivery
pub mod Asked
pub mod Named
pub mod Browsing
use multi_client_media_strea.Base.{
  ℕ, zero, suc, ◌+◌, ◌-◌, ◌*◌, ◌%◌, ◌^◌, Bool, true, false, not, ◌&&◌, [], ◌∷◌, ◌++◌, Option, none,
  some, Bytes, codes, ℤ, pos, negsuc, length, drop, min, ltb, leb, ◌==◌, if◌then◌else◌,
}
use multi_client_media_strea.FilePath.{FilePath, to_path, append}
use multi_client_media_strea.Os.{Os}
use multi_client_media_strea.Os.Monad.{M, ◌>>=◌, return, lift}
use multi_client_media_strea.Protocol.Trim.{skip_spaces, span_word}
use multi_client_media_strea.Socket.{Socket, send_string, recv_line, recv_all, default_max_length}

abbrev pub is_digit : ℕ → Bool
is_digit c = leb b'0' c && leb c b'9'

-- The value of the digits in front of a text, behind those of `value`.
unfoldable pub read_digits : ℕ → Bytes → ℕ
read_digits value [] = value
read_digits value (c ∷ s) =
    let rest = read_digits (value * 10 + (c - b'0')) s in if is_digit c then rest else value

-- The value, and whether the extraction succeeds: there is a digit and no overflow.
unfoldable pub read_magnitude : Bytes → ℕ × Bool
read_magnitude [] = (0, false)
read_magnitude (c ∷ s) =
    let value = read_digits 0 (c ∷ s) in
    if not (is_digit c)
    then (0, false)
    else if ltb value (2 ^ 64)
    then (value, true)
    else (2 ^ 64 - 1, false)

-- A minus sign negates modulo 2^64.
unfoldable pub negate : ℕ × Bool → ℕ × Bool
negate (value, true) = ((2 ^ 64 - value) % 2 ^ 64, true)
negate (value, false) = (value, false)

unfoldable pub read_signed : Bytes → ℕ × Bool
unfolding read_magnitude negate
read_signed [] = (0, false)
read_signed (c ∷ s) =
    if c == b'+'
    then read_magnitude s
    else if c == b'-'
    then negate (read_magnitude s)
    else read_magnitude (c ∷ s)

-- `iss >> value` for an unsigned integer of 64 bits that was 0.
unfoldable pub read_unsigned : Bytes → ℕ × Bool
unfolding read_signed
read_unsigned s = read_signed (skip_spaces s)

-- `header.rfind("OK", 0) == 0`
unfoldable pub starts_ok : Bytes → Bool
starts_ok [] = false
starts_ok (a ∷ []) = false
starts_ok (a ∷ (b ∷ s)) = a == b'O' && b == b'K'

-- What `do_get` makes of the first line: an error of the server, a throw of `substr(3)`, a malformed
-- header, or the size.
pub data Header : Type 0 where
  not_ok too_short malformed : Header
  announces : ℕ → Header

unfoldable pub read_header : Bytes → Header
unfolding starts_ok read_unsigned
read_header header =
    let (file_size, ok) = read_unsigned (drop 3 header) in
    if not (starts_ok header)
    then not_ok
    else if ltb (length header) 3
    then too_short
    else if ok
    then announces file_size
    else malformed

-- How `do_get` ends: it returns false, it returns true, or an exception leaves it.
pub data Verdict : Type 0 where
  gave_up completed threw : Verdict

-- CHUNK_SIZE of `do_get`.
abbrev pub client_chunk_size : ℕ
client_chunk_size = 64 * 1024

module _ (os : Os) (rounds : ℕ) where
  open os use {World}

  -- The rest of a round of the loop once `recv_all` has returned; `again` is the next round.
  unfoldable pub save_chunk : (ℕ → M World Bool) → ℕ → ℕ → ℕ → ℤ × Bytes → M World Bool
  save_chunk again out to_recv total (pos zero, buffer) w = some (false, w)
  save_chunk again out to_recv total (negsuc _, buffer) w = some (false, w)
  save_chunk again out to_recv total (pos (suc _), buffer) w =
      again (total + to_recv) (os.write out buffer w)

  unfoldable pub receive_loop : ℕ → Socket → ℕ → ℕ → ℕ → M World Bool
  unfolding save_chunk
  receive_loop zero sock out file_size total w = none
  receive_loop (suc fuel) sock out file_size total w = elim (ltb total file_size) [
    | false ↦ some (true, w)
    | true ↦
        let to_recv = min client_chunk_size (file_size - total) in
        (recv_all os rounds sock to_recv
            >>= save_chunk (receive_loop fuel sock out file_size) out to_recv total)
          w
  ]

  -- The end of `do_get` once `canonical` has answered; it throws if it fails. The result of the last
  -- `send_string` is not looked at.
  unfoldable pub after_canonical : Socket → Option FilePath → M World Verdict
  after_canonical sock none = return threw
  after_canonical sock (some p) = do
    all ← send_string os rounds sock (codes "QUIT\n")
    return completed

  unfoldable pub finish_get : Socket → FilePath → Bool → M World Verdict
  unfolding after_canonical
  finish_get sock out_path false = return gave_up
  finish_get sock out_path true = do
    resolved ← lift (os.canonical out_path)
    after_canonical sock resolved

  unfoldable pub save_file : Socket → FilePath → ℕ → Option ℕ → M World Verdict
  unfolding receive_loop finish_get
  save_file sock out_path file_size none = return gave_up
  save_file sock out_path file_size (some out) = do
    whole ← receive_loop rounds sock out file_size 0
    finish_get sock out_path whole

  unfoldable pub on_header : Socket → FilePath → Header → M World Verdict
  unfolding save_file
  on_header sock out_path not_ok = return gave_up
  on_header sock out_path too_short = return threw
  on_header sock out_path malformed = return gave_up
  on_header sock out_path (announces file_size) = do
    opened ← lift (os.open_write out_path)
    save_file sock out_path file_size opened

  -- `do_get` once `recv_line` has returned.
  unfoldable pub on_line : Socket → FilePath → Bool × Bytes → M World Verdict
  unfolding on_header
  on_line sock out_path (false, header) = return gave_up
  on_line sock out_path (true, header) = on_header sock out_path (read_header header)

  -- `do_get` once the request is sent.
  unfoldable pub await_reply : Socket → FilePath → Bool → M World Verdict
  unfolding on_line
  await_reply sock out_path false = return gave_up
  await_reply sock out_path true = do
    reply ← recv_line os rounds sock default_max_length
    on_line sock out_path reply

  -- `do_get` once `create_directories` has answered; the flag is `ec`.
  unfoldable pub ask : Socket → Bytes → FilePath → Bool → M World Verdict
  unfolding await_reply
  ask sock filename out_path true = return gave_up
  ask sock filename out_path false = do
    sent ← send_string os rounds sock (codes "GET " ++ (filename ++ b'\n' ∷ []))
    await_reply sock out_path sent

  unfoldable pub do_get : Socket → Bytes → Bytes → M World Verdict
  unfolding ask
  do_get sock filename output_dir = do
    made ← lift (os.create_directories (to_path output_dir))
    ask sock filename (append (to_path output_dir) (to_path filename)) made.failed
