-- ===== src/Protocol.antt =====
-- src/Protocol.cpp and include/streamer/Protocol.hpp: parsing a request line and building replies.
-- A `std::string` is the list of its bytes; `isspace` and `toupper` are those of the C locale.
pub mod Decimal
pub mod Trim
pub mod Requests
use multi_client_media_strea.Base.{
  ℕ, ◌-◌, Bool, true, false, ◌&&◌, ◌||◌, List, [], ◌∷◌, ◌++◌, map, Bytes, codes, bytes_eq, ◌==◌,
  leb, if◌then◌else◌, length,
}
use Trim.{trim, is_space, span_word, skip_spaces, is_empty}
use Decimal.{to_string}

-- `struct MediaFileInfo` of Types.hpp.
pub record MediaFileInfo : Type 0 where
  pub filename : Bytes
  pub size_bytes : ℕ

pub data CommandType : Type 0 where
  list get quit unknown : CommandType

pub record Request : Type 0 where
  pub type : CommandType
  pub argument : Bytes

-- The state of a default-constructed `Request`.
abbrev pub no_request : Request
no_request = record { type = unknown; argument = [] }

-- `std::toupper` in the C locale.
unfoldable pub to_upper : ℕ → ℕ
to_upper c = if leb b'a' c && leb c b'z' then c - 32 else c

-- `std::getline` from a stream that holds `s`: the bytes before the first newline.
unfoldable pub getline : Bytes → Bytes
getline [] = []
getline (c ∷ s) = if c == b'\n' then [] else c ∷ getline s

-- The `if` ladder of `parse_request` on the upper-case command, with the rest of the stream.
unfoldable pub classify : Bytes → Bytes → Request
classify cmd rest =
    if bytes_eq cmd (codes "LIST")
    then record { type = list; argument = [] }
    else if bytes_eq cmd (codes "GET")
    then record { type = get; argument = trim (getline (skip_spaces rest)) }
    else if bytes_eq cmd (codes "QUIT")
        || bytes_eq cmd (codes "EXIT")
        || bytes_eq cmd (codes "CLOSE")
    then record { type = quit; argument = [] }
    else record { type = unknown; argument = cmd }

-- The stream `iss` over the trimmed line: `iss >> cmd` skips blanks and reads one word.
unfoldable pub parse_line : Bytes → Request
parse_line line = let (cmd, rest) = span_word (skip_spaces line) in classify (map to_upper cmd) rest

unfoldable pub parse_request : Bytes → Request
parse_request raw_line =
    let line = trim raw_line in if is_empty line then no_request else parse_line line

unfoldable pub list_lines : List MediaFileInfo → Bytes
list_lines [] = []
list_lines (file ∷ files) =
    file.filename ++ (b' ' ∷ to_string file.size_bytes ++ b'\n' ∷ list_lines files)

unfoldable pub build_list_response : List MediaFileInfo → Bytes
build_list_response files = codes "OK " ++ (to_string (length files) ++ b'\n' ∷ list_lines files)

unfoldable pub build_get_header : ℕ → Bytes
build_get_header file_size = codes "OK " ++ (to_string file_size ++ b'\n' ∷ [])

unfoldable pub build_error_response : Bytes → Bytes
build_error_response error_message = codes "ERROR " ++ (error_message ++ b'\n' ∷ [])

unfoldable pub build_ok_response : Bytes → Bytes
build_ok_response message =
    if is_empty message then codes "OK\n" else codes "OK " ++ (message ++ b'\n' ∷ [])
