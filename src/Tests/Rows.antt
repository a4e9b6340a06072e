-- ===== src/Tests/Rows.antt =====
-- What the client's `do_list` shows, at concrete inputs.
use multi_client_media_strea.Base.{true, [], ◌∷◌, ◌≡◌, refl, List, some, codes}
use multi_client_media_strea.Client
use multi_client_media_strea.Client.Rows
use multi_client_media_strea.Client.Rows.{Row, do_list, read_row}
use multi_client_media_strea.Client.{completed}
use multi_client_media_strea.Protocol.Trim
use multi_client_media_strea.Tests.Examples.{before, connected}
use multi_client_media_strea.Tests.Listings.{catalog}
use multi_client_media_strea.Tests.Machine.{Machine, machine}
use multi_client_media_strea.Tests.Opened.{socket_code}

unfoldable rows_code : Unit {0}
unfolding socket_code Rows.do_list Rows.await_listing Rows.on_list_line Rows.on_list_header
    Rows.read_list_header Rows.finish_list Rows.list_loop Rows.show_row Rows.read_row
    Client.starts_ok Client.read_unsigned Client.read_signed Client.read_magnitude
    Client.read_digits Trim.skip_spaces Trim.span_word Trim.is_space Trim.is_empty
rows_code = tt

abbrev pub browsing : Machine
browsing = record before { incoming = catalog }

abbrev pub browsed : Machine
browsed = record before {
  sent = codes "LIST\nQUIT\n";
  taken = catalog;
  incoming = [];
  interrupts = 0;
}

abbrev pub rows : List Row
rows = record { name = codes "a.txt"; size = 5 } ∷ record { name = codes "b.mp3"; size = 5 } ∷ []

pub list_runs : do_list machine 30 connected browsing ≡ some ((completed, rows), browsed)
unfolding rows_code
list_runs = refl

-- A name with a blank in it is cut, and its size is lost.
cut_name : read_row (codes "my song.mp3 5") ≡ record { name = codes "my"; size = 0 }
unfolding rows_code
cut_name = refl

-- The connection ends inside the last row, and the row is shown with another size.
cut_row :
    do_list machine 30 connected (record before { incoming = codes "OK 1\na.txt 12" })
    ≡ some (
      (completed, record { name = codes "a.txt"; size = 12 } ∷ []),
      record before {
        sent = codes "LIST\nQUIT\n";
        taken = codes "OK 1\na.txt 12";
        incoming = [];
        ended = true;
        interrupts = 0;
      },
    )
unfolding rows_code
cut_row = refl
