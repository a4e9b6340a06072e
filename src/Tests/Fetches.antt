-- ===== src/Tests/Fetches.antt =====
-- What the client's `do_get` fetches, at concrete inputs.
use multi_client_media_strea.Base.{ℕ, [], ◌≡◌, refl, arith, some, codes, ◌<◌, ◌^◌}
use multi_client_media_strea.Client
use multi_client_media_strea.Client.Delivery.{Kept, do_get-handle_get}
use multi_client_media_strea.Client.Fetch.{Fetched, do_get-Fetched}
use multi_client_media_strea.Client.{completed, do_get, announces, read_header}
use multi_client_media_strea.FileManager.{get_file_size}
use multi_client_media_strea.FilePath.{FilePath, append, to_path}
use multi_client_media_strea.Protocol.Trim
use multi_client_media_strea.Tests.Examples.{before, connected, session, manager, get_runs}
use multi_client_media_strea.Os.{Os}
use multi_client_media_strea.Os.Contract.{Stores}
use multi_client_media_strea.Tests.Machine.{Machine, machine}
use multi_client_media_strea.Tests.Promises.{machine_wire, machine_reading, machine_saving}
use multi_client_media_strea.Tests.Opened.{socket_code, path_code}

-- The client, whose server answers with five bytes.
abbrev pub asking : Machine
asking = record before { incoming = codes "OK 5\nhello"; saved = codes "old" }

abbrev pub fetched : Machine
fetched = record asking {
  sent = codes "GET a.txt\nQUIT\n";
  taken = codes "OK 5\nhello";
  incoming = [];
  saved = codes "hello";
  interrupts = 0;
}

abbrev out_path : FilePath
out_path = append (to_path (codes "out")) (to_path (codes "a.txt"))

unfoldable pub get_code : Unit {0}
unfolding socket_code path_code do_get Client.read_header Client.starts_ok Client.read_unsigned
    Client.read_signed Client.read_magnitude Client.read_digits Trim.skip_spaces Trim.is_space
get_code = tt

pub fetch_runs :
    do_get machine 30 connected (codes "a.txt") (codes "out") asking ≡ some (completed, fetched)
unfolding get_code
fetch_runs = refl

do_get-Fetched_example :
    Fetched machine machine_wire machine_saving 7 (codes "a.txt") out_path asking fetched
do_get-Fetched_example =
    do_get-Fetched machine machine_wire machine_saving 30 7 (codes "a.txt") (codes "out") asking
      fetched fetch_runs

sizes :
    (n : ℕ) (u : Machine)
    → get_file_size machine manager (codes "a.txt") before ≡ (some n, u)
    → n < 2 ^ 64
unfolding path_code
sizes n u e = ground (arith, e)

do_get-handle_get_example :
    (out : ℕ) × Kept machine machine_reading manager (codes "a.txt") before (codes "hello")
    × Stores machine machine_saving out fetched
do_get-handle_get_example =
    do_get-handle_get machine machine_wire machine_reading 20 7 session refl (omega arith) manager
      (codes "a.txt") before _ session sizes machine machine_wire machine_saving 30 7
      (codes "a.txt") (codes "out") asking fetched (codes "OK 5") (codes "hello") [] get_runs
      fetch_runs refl refl

-- A disk that is full: `write` fails and the stream keeps nothing.
abbrev full_disk : Os
full_disk = record machine { write = λ h b w. w }

-- `do_get` returns true all the same.
unchecked_write :
    do_get full_disk 30 connected (codes "a.txt") (codes "out") asking
    ≡ some (completed, record fetched { saved = [] })
unfolding get_code
unchecked_write = refl
