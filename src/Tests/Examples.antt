-- ===== src/Tests/Examples.antt =====
-- The theorems at concrete inputs.
use multi_client_media_strea.Base.{
  ℕ, true, false, [], ◌∷◌, ◌++◌, ◌≡◌, ◌↔◌, refl, arith, Option, some, Bytes, codes, pos, to_int,
}
use multi_client_media_strea.ClientSession.Get.{GetReply, handle_get-GetReply}
use multi_client_media_strea.ClientSession.{ClientSession, handle_get}
use multi_client_media_strea.FileManager.Inside.{IsInside, inside_root_iff}
use multi_client_media_strea.FileManager.Safety.{
  resolve_safe_path_iff, Confined, open_binary_file-Confined, Sized, get_file_size-Sized,
}
use multi_client_media_strea.FileManager.{FileManager, inside_root, refused_name, resolve_safe_path}
use multi_client_media_strea.FilePath.Relative.{IsCanonical, IsNormal}
use multi_client_media_strea.FilePath.{FilePath, append, to_path}
use multi_client_media_strea.Os.{sig_default}
use multi_client_media_strea.Protocol.Requests.{
  IsArgument, parse_request_get, parse_request_pad, parse_request-IsArgument,
}
use multi_client_media_strea.Protocol.{get, parse_request}
use multi_client_media_strea.Socket.Lines.{Line, recv_line-Line}
use multi_client_media_strea.Socket.Recv.{Filled, recv_all-Filled}
use multi_client_media_strea.Socket.Send.{Outcome, send_all-Outcome}
use multi_client_media_strea.Socket.{Socket}
use multi_client_media_strea.Tests.Opened.{session_code, path_code, protocol_code, socket_code}
use multi_client_media_strea.Tests.Machine.{Machine, machine}
use multi_client_media_strea.Tests.Promises.{machine_wire, machine_reading, machine-AnswersNormal}

abbrev pub root : FilePath
root = record { absolute = true; elements = codes "srv" ∷ codes "media" ∷ [] }

abbrev pub manager : FileManager
manager = record { root_dir = root; canonical_root = root }

abbrev pub connected : Socket
connected = record { fd = pos 7 }

abbrev pub session : ClientSession
session = record {
  session_id = 1;
  socket = connected;
  client_ip = codes "127.0.0.1";
  client_port = 45232;
  chunk_size = 4;
  is_active = true;
}

-- A file of five bytes; the peer takes three bytes at a time, and a signal comes once.
abbrev pub before : Machine
before = record {
  sent = [];
  taken = [];
  incoming = codes "LIST\r\nGET a.txt\n";
  file = codes "hello";
  saved = [];
  burst = 2;
  ended = false;
  interrupts = 1;
  stopping = false;
  actions = λ s. sig_default;
}

abbrev pub got_world : Machine
got_world = record before { sent = codes "OK 5\nhello"; file = []; interrupts = 0 }

pub get_runs :
    handle_get machine 20 manager session (codes "a.txt") before ≡ some (session, got_world)
unfolding session_code
get_runs = refl

handle_get-GetReply_example :
    GetReply machine machine_wire machine_reading 7 session manager
      (codes "a.txt")
      before
      (session, got_world)
handle_get-GetReply_example =
    handle_get-GetReply machine machine_wire machine_reading 20 7 session refl (omega arith) manager
      (codes "a.txt") before got_world session get_runs

below : FilePath
below = record root { elements = codes "srv" ∷ codes "media" ∷ codes "a.txt" ∷ [] }

pub root-IsCanonical : IsCanonical root
root-IsCanonical = record { is_absolute = refl; all_names = ground arith }

below-IsNormal : IsNormal below
unfolding below
below-IsNormal = record {
  is_absolute = refl;
  all_normal = (ground arith, (ground arith, ground arith));
}

inside_root_iff_example : (inside_root root below ≡ true) ↔ IsInside root below
inside_root_iff_example = inside_root_iff root below root-IsCanonical below-IsNormal

resolve_safe_path_iff_example :
    (resolve_safe_path machine manager (codes "a.txt") before ≡ (some below, before)) ↔ (
      (refused_name (codes "a.txt") ≡ false)
      × (machine.weakly_canonical (append root (to_path (codes "a.txt"))) before
          ≡ (some below, before))
      × IsInside root below)
resolve_safe_path_iff_example =
    resolve_safe_path_iff machine machine-AnswersNormal manager root-IsCanonical (codes "a.txt")
      below before before

-- A slash at the end of the name leaves an empty last name, and the path is let through.
slash_kept :
    resolve_safe_path machine manager (codes "sub/") before
    ≡ (some (record root { elements = root.elements ++ codes "sub" ∷ [] ∷ [] }), before)
unfolding path_code
slash_kept = refl

open_binary_file-Confined_example :
    Confined machine machine-AnswersNormal manager root-IsCanonical
      (Option ℕ)
      machine.open_read
      (some 5)
      before
unfolding path_code
open_binary_file-Confined_example =
    open_binary_file-Confined machine machine-AnswersNormal manager root-IsCanonical (codes "a.txt")
      5 before before refl

get_file_size-Sized_example : Sized machine machine-AnswersNormal manager root-IsCanonical 5 before
unfolding path_code
get_file_size-Sized_example =
    get_file_size-Sized machine machine-AnswersNormal manager root-IsCanonical (codes "a.txt") 5
      before before refl

after_send : Machine
after_send = record before { sent = codes "OK 5\n"; interrupts = 0 }

send_all-Outcome_example :
    (sent : ℕ) × (some (pos 5) ≡ some (to_int sent))
    × Outcome (codes "OK 5\n") [] (codes "OK 5\n") true sent
unfolding socket_code after_send
send_all-Outcome_example =
    send_all-Outcome machine machine_wire 9 7 (codes "OK 5\n") before after_send true (some (pos 5))
      refl

after_recv : Machine
after_recv = record before {
  taken = codes "LIST\r";
  incoming = codes "\nGET a.txt\n";
  interrupts = 0;
}

recv_all-Filled_example : Filled 5 [] (codes "LIST\r") false false (codes "LIST\r") (pos 1)
unfolding socket_code after_recv
recv_all-Filled_example =
    recv_all-Filled machine machine_wire 9 7 5 before after_recv (pos 1) (codes "LIST\r") refl

after_line : Machine
after_line = record before {
  taken = codes "LIST\r\n";
  incoming = codes "GET a.txt\n";
  interrupts = 0;
}

recv_line-Line_example :
    (taken : Bytes) × (codes "LIST\r\n" ≡ [] ++ taken) × Line 4096 taken false true (codes "LIST")
unfolding socket_code after_line
recv_line-Line_example =
    recv_line-Line machine machine_wire 9 7 4096 before after_line true (codes "LIST") refl

parse_request_get_example :
    parse_request (codes "  get  my song.mp3\r\n")
    ≡ record { type = get; argument = codes "my song.mp3" }
unfolding protocol_code
parse_request_get_example =
    parse_request_get (codes "  ") (codes "get") b' ' (codes " ") (codes "my song.mp3")
      (codes "\r\n") (ground arith) ((λ e. cc), ground arith) refl (ground arith) (λ e. cc)
      (refl, refl) (ground arith) (ground arith)

parse_request_pad_example : parse_request (codes " LIST\r\n") ≡ parse_request (codes "LIST")
unfolding protocol_code
parse_request_pad_example =
    parse_request_pad (codes " ") (codes "LIST") (codes "\r\n") (ground arith) (ground arith)

parse_request-IsArgument_example : IsArgument (codes "a.txt")
unfolding protocol_code
parse_request-IsArgument_example = parse_request-IsArgument (codes "GET a.txt\n") refl
