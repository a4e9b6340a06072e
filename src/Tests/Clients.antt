-- ===== src/Tests/Clients.antt =====
-- The client's theorems at concrete inputs.
use multi_client_media_strea.Base.{[], ◌∷◌, ◌++◌, ◌≡◌, refl, arith, bytes_eq, codes}
use multi_client_media_strea.Client
use multi_client_media_strea.Client.{announces, too_short, read_header, receive_loop}
use multi_client_media_strea.Client.Reading.{read_header-build_get_header}
use multi_client_media_strea.CommandLine
use multi_client_media_strea.CommandLine.Usable.{IsUsable, read_arguments-IsUsable}
use multi_client_media_strea.CommandLine.{default_config, read_arguments}
use multi_client_media_strea.Protocol.Trim
use multi_client_media_strea.Protocol.{build_get_header}
use multi_client_media_strea.Socket.{strip_return}
use multi_client_media_strea.Socket.Lines.{NoNewline}
use multi_client_media_strea.Tests.Examples.{before}
use multi_client_media_strea.Tests.Machine.{Machine}

read_header-build_get_header_example :
    (line : _) × (build_get_header 1048576 ≡ line ++ b'\n' ∷ [])
    × NoNewline line
    × (strip_return line ≡ line)
    × (read_header line ≡ announces 1048576)
read_header-build_get_header_example = read_header-build_get_header 1048576 (omega arith)

-- A reply of `OK` alone.
short_header : read_header (codes "OK") ≡ too_short
unfolding read_header Client.starts_ok
short_header = refl

after_file : Machine
after_file = record before {
  taken = codes "LIST\r\nGE";
  incoming = codes "T a.txt\n";
  saved = codes "LIST\r\nGE";
  interrupts = 0;
}

-- The port 65537 becomes 1.
read_arguments-IsUsable_example : IsUsable (record default_config { port = 1 })
unfolding bytes_eq CommandLine.option_of CommandLine.strtoul Client.read_signed Client.read_digits
    Trim.is_space Trim.skip_spaces Client.read_unsigned Client.read_magnitude read_arguments
read_arguments-IsUsable_example =
    read_arguments-IsUsable (codes "-p" ∷ codes "65537" ∷ []) default_config _ (codes "info") _
      (record { port_nonzero = omega arith; port_bound = omega arith; chunked = omega arith }) refl
