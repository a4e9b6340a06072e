-- ===== src/Tests/Turns.antt =====
-- A client and a turn of a session at concrete inputs.
use multi_client_media_strea.Base.{ℕ, ◌<◌, map, All, ◌^◌, true, [], ◌≡◌, refl, arith, some, codes}
use multi_client_media_strea.Client.Delivery.{Kept}
use multi_client_media_strea.Client.Browsing.{do_list-respond}
use multi_client_media_strea.Client.Listing.{IsListable, row_of}
use multi_client_media_strea.Tests.Rows.{rows, browsing, browsed, list_runs}
use multi_client_media_strea.Tests.Listings.{catalog}
use multi_client_media_strea.Client.Named.{do_get-respond}
use multi_client_media_strea.ClientSession.{respond}
use multi_client_media_strea.FileManager.{get_file_size, list_files}
use multi_client_media_strea.Protocol.{parse_request}
use multi_client_media_strea.Socket.{recv_line}
use multi_client_media_strea.Tests.Examples.{session, manager}
use multi_client_media_strea.Tests.Fetches.{asking, fetched, fetch_runs}
use multi_client_media_strea.Os.Contract.{Stores}
use multi_client_media_strea.Tests.Machine.{Machine, machine}
use multi_client_media_strea.Tests.Opened.{run_code, path_code, protocol_code, listing_code}
use multi_client_media_strea.Tests.Promises.{machine_wire, machine_reading, machine_saving}
use multi_client_media_strea.Tests.Visits.{hello}

abbrev request_heard : Machine
request_heard = record hello {
  taken = codes "GET a.txt\n";
  incoming = codes "QUIT\n";
  interrupts = 0;
}

abbrev replied : Machine
replied = record request_heard { sent = codes "OK 5\nhello"; file = [] }

hears :
    recv_line machine 20 session.socket 4096 hello ≡ some ((true, codes "GET a.txt"), request_heard)
unfolding run_code
hears = refl

replies :
    respond machine 20 manager session
      (parse_request (codes "GET a.txt")).type
      (parse_request (codes "GET a.txt")).argument
      request_heard
    ≡ some (session, replied)
unfolding run_code
replies = refl

heard_sizes :
    (n : ℕ) (v : Machine)
    → get_file_size machine manager (codes "a.txt") request_heard ≡ (some n, v)
    → n < 2 ^ 64
unfolding path_code
heard_sizes n v e = ground (arith, e)

do_get-respond_example :
    (out : ℕ) × Kept machine machine_reading manager (codes "a.txt") request_heard (codes "hello")
    × Stores machine machine_saving out fetched
unfolding protocol_code
do_get-respond_example =
    do_get-respond machine machine_wire machine_reading 20 7 session session manager hello
      request_heard replied (codes "GET a.txt") machine machine_wire machine_saving 30 7
      (codes "a.txt") (codes "out") asking fetched (codes "GET a.txt\n") (codes "QUIT\n")
      (codes "OK 5") (codes "hello") [] refl (omega arith) heard_sizes (λ e. cc) (refl, refl)
      (ground arith) hears replies fetch_runs refl refl (λ e. cc) refl refl

abbrev list_heard : Machine
list_heard = record hello { taken = codes "LIST\n"; incoming = codes "QUIT\n"; interrupts = 0 }

listable : All IsListable (list_files machine manager list_heard).0
unfolding listing_code
listable = (
  (((λ e. cc), (refl, (refl, (refl, (refl, (refl, tt)))))), omega arith),
  ((((λ e. cc), (refl, (refl, (refl, (refl, (refl, tt)))))), omega arith), tt),
)

hears_list :
    recv_line machine 20 session.socket 4096 (record hello { incoming = codes "LIST\nQUIT\n" })
    ≡ some ((true, codes "LIST"), list_heard)
unfolding run_code
hears_list = refl

lists :
    respond machine 20 manager session
      (parse_request (codes "LIST")).type
      (parse_request (codes "LIST")).argument
      list_heard
    ≡ some (session, record list_heard { sent = catalog })
unfolding run_code
lists = refl

do_list-respond_example : rows ≡ map row_of (list_files machine manager list_heard).0
unfolding listing_code
do_list-respond_example =
    do_list-respond machine machine_wire 20 7 session session manager
      (record hello { incoming = codes "LIST\nQUIT\n" }) list_heard
      (record list_heard { sent = catalog }) (codes "LIST") machine machine_wire 30 7 browsing
      browsed rows (codes "LIST\n") (codes "QUIT\n") catalog refl (omega arith) listable hears_list
      lists refl list_runs refl refl (λ e. cc) refl refl
