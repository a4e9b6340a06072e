-- ===== src/Tests/Listings.antt =====
-- The theorems on listings, on the end of GET and on sessions, at concrete inputs.
use multi_client_media_strea.Base.{
  true, false, [], ◌∷◌, ◌≤◌, ◌≡◌, refl, arith, Bytes, codes, bytes_eq, length, if◌then◌else◌,
}
use mathlib.Core.List.{Perm}
use multi_client_media_strea.ClientSession.Ending.{handle_get-Ends}
use multi_client_media_strea.ClientSession.Listing.{Listed, handle_list-Listed}
use multi_client_media_strea.ClientSession.{handle_get}
use multi_client_media_strea.FileManager.Listing.{
  IsSorted, Folder, visible, list_files-IsSorted, collect_stops,
}
use multi_client_media_strea.FileManager.{collect, list_files}
use multi_client_media_strea.Os.Monad.{Ends}
use multi_client_media_strea.Os.{Os}
use multi_client_media_strea.Protocol.{build_list_response}
use multi_client_media_strea.Tests.Examples.{manager, session, before}
use multi_client_media_strea.Tests.Machine.{Machine, machine}
use multi_client_media_strea.Tests.Promises.{machine_wire, machine_reading, machine_patience}
use multi_client_media_strea.Tests.Opened.{session_code, listing_code}

abbrev folder : Folder machine manager
folder = record {
  unchanged = λ w. Unit {0};
  entries = codes "b.mp3" ∷ codes ".gitkeep" ∷ codes "a.txt" ∷ [];
  regular = λ name. true;
  size = length;
  by_exists = λ w same. same;
  by_is_directory = λ w same. same;
  by_directory_entries = λ w same. same;
  by_probe_entry = λ name w m same. same;
  by_entry_size = λ name w m same. same;
  entries_law = λ w same. refl;
  probe_law = λ name w m same. refl;
  size_law = λ name w m shown same. refl;
}

list_files-IsSorted_example :
    IsSorted (list_files machine manager before).0
    × Perm (list_files machine manager before).0 (visible machine manager folder folder.entries)
list_files-IsSorted_example = list_files-IsSorted machine manager folder before tt refl refl

-- The entry `link` cannot be examined.
abbrev broken : Os
broken = record machine {
  probe_entry = λ name w.
      if bytes_eq name (codes "link")
      then (record { regular = false; failed = true }, w)
      else (record { regular = true; failed = false }, w);
}

collect_stops_example :
    (collect broken (codes "b.mp3" ∷ codes "link" ∷ codes "a.txt" ∷ []) false [] before).0
    ≡ (collect broken (codes "b.mp3" ∷ []) false [] before).0
unfolding bytes_eq
collect_stops_example =
    collect_stops broken (codes "link") (λ w. refl) (codes "b.mp3" ∷ []) (codes "a.txt" ∷ []) false
      [] before

handle_get-Ends_example :
    Ends
      (λ r.
        (machine_patience.pending r.1 ≤ machine_patience.pending before)
        × (r.0.chunk_size ≡ session.chunk_size))
      (handle_get machine 60 manager session (codes "a.txt") before)
unfolding session_code
handle_get-Ends_example =
    handle_get-Ends machine machine_reading machine_patience 60 5 manager session (codes "a.txt")
      before (λ v. refl) (λ n e. ground arith) (omega arith)

abbrev pub catalog : Bytes
catalog = codes "OK 2\na.txt 5\nb.mp3 5\n"

abbrev pub listed_world : Machine
listed_world = record before { sent = catalog; interrupts = 0 }

handle_list-Listed_example :
    Listed (build_list_response (list_files machine manager before).0) [] catalog session session
unfolding listing_code
handle_list-Listed_example =
    handle_list-Listed machine machine_wire 30 7 session refl manager before listed_world session
      refl
