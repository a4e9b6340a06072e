-- ===== src/Socket.antt =====
-- src/Socket.cpp and include/streamer/Socket.hpp: the wrapper of a socket descriptor.
pub mod Send
pub mod Recv
pub mod Lines
pub mod Keeps
pub mod Views
pub mod Ending
use multi_client_media_strea.Base.{
  ℕ, zero, suc, ◌+◌, ◌-◌, Bool, true, false, not, ◌||◌, List, [], ◌∷◌, ◌++◌, Option, none, some,
  Bytes, codes, bytes_eq, ℤ, pos, negsuc, to_int, length, drop, ltb, ◌==◌, if◌then◌else◌,
}
use multi_client_media_strea.Os.{
  Os, Reply, done, failed, Errno, eintr, SocketOption, reuse_address, receive_timeout, send_timeout,
  Address, SocketAddress,
}
use multi_client_media_strea.Os.Monad.{M, ◌>>=◌, return}
use multi_client_media_strea.Protocol.Trim.{is_empty}

pub record Socket : Type 0 where
  pub fd : ℤ

-- `Socket(-1)`
abbrev pub invalid : Socket
invalid = record { fd = negsuc 0 }

abbrev pub is_valid : Socket → Bool
is_valid s = elim s.fd [ pos _ ↦ true | negsuc _ ↦ false ]

-- `Socket(Socket&& other)`: the new socket, and what is left of `other`.
unfoldable pub move_from : Socket → Socket × Socket
move_from other = (record { fd = other.fd }, record other { fd = negsuc 0 })

-- `if (!line.empty() && line.back() == '\r') line.pop_back()`
unfoldable pub strip_return : Bytes → Bytes
strip_return [] = []
strip_return (c ∷ []) = if c == b'\r' then [] else c ∷ []
strip_return (c ∷ (d ∷ s)) = c ∷ strip_return (d ∷ s)

module _ (os : Os) where
  open os use {World}

  -- `shutdown` with SHUT_RDWR, the only way that the program calls it.
  unfoldable pub shutdown : Socket → World → World
  shutdown s w = elim s.fd [ pos n ↦ os.shutdown n w | negsuc _ ↦ w ]

  unfoldable pub close : Socket → World → Socket × World
  close s w = elim s.fd [ pos n ↦ (record s { fd = negsuc 0 }, os.close n w) | negsuc _ ↦ (s, w) ]

  -- The destructor.
  unfoldable pub destroy : Socket → World → Socket × World
  unfolding close
  destroy s w = close s w

  -- `*this = std::move(other)` for two objects: both as they are left.
  unfoldable pub move_assign : Socket → Socket → World → (Socket × Socket) × World
  unfolding close
  move_assign s other w =
      let (s', w') = close s w in
      ((record s' { fd = other.fd }, record other { fd = negsuc 0 }), w')

  unfoldable pub create_tcp : World → Socket × World
  create_tcp w =
      let (reply, w') = os.socket w in
      elim reply [ failed _ ↦ (invalid, w') | done fd ↦ (record { fd = pos fd }, w') ]

  -- A call that returns 0, or -1 and `errno`.
  abbrev succeeded : Reply (Unit {0}) × World → Bool × World
  succeeded r = elim r.0 [ done _ ↦ (true, r.1) | failed _ ↦ (false, r.1) ]

  unfoldable pub set_reuse_address : Socket → Bool → World → Bool × World
  set_reuse_address s reuse w = elim s.fd [
    | negsuc _ ↦ (false, w)
    | pos fd ↦ succeeded (os.setsockopt fd (reuse_address reuse) w)
  ]

  -- INADDR_ANY
  abbrev any_address : ℕ
  any_address = 0

  unfoldable pub bind : Socket → Bytes → ℕ → World → Bool × World
  bind s host port w = elim s.fd [
    | negsuc _ ↦ (false, w)
    | pos fd ↦
        if is_empty host || bytes_eq host (codes "0.0.0.0")
        then succeeded (os.bind fd any_address port w)
        else elim (os.inet_pton host) [
          | none ↦ (false, w)
          | some ip ↦ succeeded (os.bind fd ip port w)
        ]
  ]

  unfoldable pub listen : Socket → ℤ → World → Bool × World
  listen s backlog w = elim s.fd [
    | negsuc _ ↦ (false, w)
    | pos fd ↦ succeeded (os.listen fd backlog w)
  ]

  -- `inet_ntop` and `ntohs` of an address, as `accept` and `get_peer_info` write it down.
  abbrev to_address : SocketAddress → Address
  to_address addr = elim (os.inet_ntop addr.sin_addr) [
    | none ↦ record { ip = codes "unknown"; port = addr.sin_port }
    | some ip ↦ record { ip = ip; port = addr.sin_port }
  ]

  -- The address is written only if a connection is accepted.
  unfoldable pub accept : Socket → Address → World → (Socket × Address) × World
  accept s client w = elim s.fd [
    | negsuc _ ↦ ((invalid, client), w)
    | pos fd ↦
        let (reply, w') = os.accept fd w in
        elim reply [
          | failed _ ↦ ((invalid, client), w')
          | done (client_fd, addr) ↦ ((record { fd = pos client_fd }, to_address addr), w')
        ]
  ]

  -- The out parameters are the value of `some`.
  unfoldable pub get_peer_info : Socket → World → Option Address × World
  get_peer_info s w = elim s.fd [
    | negsuc _ ↦ (none, w)
    | pos fd ↦
        let (reply, w') = os.getpeername fd w in
        elim reply [ failed _ ↦ (none, w') | done addr ↦ (some (to_address addr), w') ]
  ]

  unfoldable pub connect : Socket → Bytes → ℕ → World → Bool × World
  connect s host port w = elim s.fd [
    | negsuc _ ↦ (false, w)
    | pos fd ↦ elim (os.inet_pton host) [
      | none ↦ (false, w)
      | some ip ↦ succeeded (os.connect fd ip port w)
    ]
  ]

  -- The second option is set only if the first one is.
  unfoldable pub set_timeouts : Socket → ℤ → ℤ → World → Bool × World
  set_timeouts s rcv_sec snd_sec w = elim s.fd [
    | negsuc _ ↦ (false, w)
    | pos fd ↦
        let (reply, w') = os.setsockopt fd (receive_timeout rcv_sec) w in
        elim reply [
          | failed _ ↦ (false, w')
          | done _ ↦ succeeded (os.setsockopt fd (send_timeout snd_sec) w')
        ]
  ]

  -- One round of `send_all` once `send` has replied; `again` goes on from a count of bytes sent.
  unfoldable pub send_next : (ℕ → M World (Bool × ℤ)) → ℕ → Reply ℕ → M World (Bool × ℤ)
  send_next again total_sent (failed eintr) w = again total_sent w
  send_next again total_sent (failed _) w = some ((false, to_int total_sent), w)
  send_next again total_sent (done zero) w = some ((false, to_int total_sent), w)
  send_next again total_sent (done (suc n)) w = again (total_sent + suc n) w

  -- The loop of `send_all`. The result is the flag and what is written to `*out_bytes_sent`.
  unfoldable pub send_loop : ℕ → ℕ → Bytes → ℕ → M World (Bool × ℤ)
  unfolding send_next
  send_loop zero fd data' total_sent w = none
  send_loop (suc fuel) fd data' total_sent w = elim (ltb total_sent (length data')) [
    | false ↦ some ((true, to_int total_sent), w)
    | true ↦
        let (reply, w') = os.send fd (drop total_sent data') w in
        send_next (send_loop fuel fd data') total_sent reply w'
  ]

  -- With no descriptor nothing is written to `*out_bytes_sent`.
  unfoldable pub send_all : ℕ → Socket → Bytes → M World (Bool × Option ℤ)
  send_all fuel s data' = elim s.fd [
    | negsuc _ ↦ return (false, none)
    | pos fd ↦ do (all, sent) ← send_loop fuel fd data' 0; return (all, some sent)
  ]

  unfoldable pub send_string : ℕ → Socket → Bytes → M World Bool
  send_string fuel s str = do (all, sent) ← send_all fuel s str; return all

  -- One round of `recv_all` once `recv` has replied.
  unfoldable pub recv_next :
      (Bytes → M World (ℤ × Bytes)) → Bytes → Reply Bytes → M World (ℤ × Bytes)
  recv_next again buffer (failed eintr) w = again buffer w
  recv_next again buffer (failed _) w = some ((negsuc 0, buffer), w)
  recv_next again buffer (done []) w = some ((pos 0, buffer), w)
  recv_next again buffer (done (c ∷ cs)) w = again (buffer ++ (c ∷ cs)) w

  -- The loop of `recv_all`: the code that is returned, and the bytes written to the buffer.
  unfoldable pub recv_loop : ℕ → ℕ → ℕ → Bytes → M World (ℤ × Bytes)
  unfolding recv_next
  recv_loop zero fd size buffer w = none
  recv_loop (suc fuel) fd size buffer w = elim (ltb (length buffer) size) [
    | false ↦ some ((pos 1, buffer), w)
    | true ↦
        let (reply, w') = os.recv fd (size - length buffer) w in
        recv_next (recv_loop fuel fd size) buffer reply w'
  ]

  unfoldable pub recv_all : ℕ → Socket → ℕ → M World (ℤ × Bytes)
  recv_all fuel s size w = elim s.fd [
    | negsuc _ ↦ some ((negsuc 0, []), w)
    | pos fd ↦ recv_loop fuel fd size [] w
  ]

  -- One round of `recv_line` once `recv` has replied.
  unfoldable pub line_next :
      (Bytes → M World (Bool × Bytes)) → Bytes → Reply Bytes → M World (Bool × Bytes)
  unfolding strip_return
  line_next again line (failed eintr) w = again line w
  line_next again line (failed _) w = some ((false, line), w)
  line_next again line (done []) w = some ((not (is_empty line), line), w)
  line_next again line (done (ch ∷ _)) w = elim (ch == b'\n') [
    | true ↦ some ((true, strip_return line), w)
    | false ↦ again (line ++ ch ∷ []) w
  ]

  unfoldable pub line_loop : ℕ → ℕ → ℕ → Bytes → M World (Bool × Bytes)
  unfolding line_next
  line_loop zero fd max_length line w = none
  line_loop (suc fuel) fd max_length line w = elim (ltb (length line) max_length) [
    | false ↦ some ((false, line), w)
    | true ↦
        let (reply, w') = os.recv fd 1 w in line_next (line_loop fuel fd max_length) line reply w'
  ]

  -- The result is the flag and what `line` holds.
  unfoldable pub recv_line : ℕ → Socket → ℕ → M World (Bool × Bytes)
  recv_line fuel s max_length w = elim s.fd [
    | negsuc _ ↦ some ((false, []), w)
    | pos fd ↦ line_loop fuel fd max_length [] w
  ]

-- The default of `recv_line`'s second parameter.
abbrev pub default_max_length : ℕ
default_max_length = 4096
