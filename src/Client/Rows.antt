-- ===== src/Client/Rows.antt =====
-- src/client_main.cpp, do_list: the client asks for the listing and shows it row by row. The result
-- has the rows that were shown; their layout and the column in megabytes are left out.
use multi_client_media_strea.Base.{
  ℕ, zero, suc, Bool, true, false, not, List, [], ◌∷◌, Bytes, codes, length, drop, ltb,
  if◌then◌else◌,
}
use multi_client_media_strea.Client.{Verdict, gave_up, completed, threw, read_unsigned, starts_ok}
use multi_client_media_strea.Os.{Os}
use multi_client_media_strea.Os.Monad.{M, ◌>>=◌, return}
use multi_client_media_strea.Protocol.Trim.{skip_spaces, span_word}
use multi_client_media_strea.Socket.{Socket, send_string, recv_line, default_max_length}

-- A row of the listing on the terminal.
pub record Row : Type 0 where
  pub name : Bytes
  pub size : ℕ

-- `line_iss >> name >> size`
unfoldable pub read_row : Bytes → Row
read_row line =
    let (name, rest) = span_word (skip_spaces line) in
    record { name = name; size = (read_unsigned rest).0 }

-- What `do_list` makes of the first line; an extraction that fails leaves a count all the same.
pub data ListHeader : Type 0 where
  list_error list_throws : ListHeader
  counts : ℕ → ListHeader

unfoldable pub read_list_header : Bytes → ListHeader
unfolding starts_ok read_unsigned
read_list_header header =
    if not (starts_ok header)
    then list_error
    else if ltb (length header) 3
    then list_throws
    else counts (read_unsigned (drop 3 header)).0

abbrev pub add_row : Row → Bool × List Row → Bool × List Row
add_row row (ok, rows) = (ok, row ∷ rows)

module _ (os : Os) (rounds : ℕ) (sock : Socket) where
  open os use {World}

  -- A round of the loop once `recv_line` has returned; `again` has the rounds behind it.
  unfoldable pub show_row : M World (Bool × List Row) → Bool × Bytes → M World (Bool × List Row)
  unfolding read_row
  show_row again (false, line) = return (false, [])
  show_row again (true, line) = do shown ← again; return (add_row (read_row line) shown)

  unfoldable pub list_loop : ℕ → M World (Bool × List Row)
  unfolding show_row
  list_loop zero = return (true, [])
  list_loop (suc count) = do
    reply ← recv_line os rounds sock default_max_length
    show_row (list_loop count) reply

  unfoldable pub finish_list : Bool × List Row → M World (Verdict × List Row)
  finish_list (false, rows) = return (gave_up, rows)
  finish_list (true, rows) = do
    all ← send_string os rounds sock (codes "QUIT\n")
    return (completed, rows)

  unfoldable pub on_list_header : ListHeader → M World (Verdict × List Row)
  unfolding list_loop finish_list
  on_list_header list_error = return (gave_up, [])
  on_list_header list_throws = return (threw, [])
  on_list_header (counts count) = do shown ← list_loop count; finish_list shown

  unfoldable pub on_list_line : Bool × Bytes → M World (Verdict × List Row)
  unfolding read_list_header on_list_header
  on_list_line (false, header) = return (gave_up, [])
  on_list_line (true, header) = on_list_header (read_list_header header)

  unfoldable pub await_listing : Bool → M World (Verdict × List Row)
  unfolding on_list_line
  await_listing false = return (gave_up, [])
  await_listing true = do reply ← recv_line os rounds sock default_max_length; on_list_line reply

  unfoldable pub do_list : M World (Verdict × List Row)
  unfolding await_listing
  do_list = do sent ← send_string os rounds sock (codes "LIST\n"); await_listing sent
