-- ===== src/Server/Binding.antt =====
-- How `Socket::bind` and `Socket::listen` (src/Socket.cpp) end on a socket with a descriptor, as
-- `MediaServer::start` (src/Server.cpp) calls them, in the calls of the system.
use multi_client_media_strea.Base.{
  ℕ, Bool, true, false, ◌||◌, ◌≡◌, ◌⊎◌, refl, Bytes, codes, bytes_eq, none, some, ℤ, pos, inl, inr,
  Bool-cases, Option-cases,
}
use multi_client_media_strea.Os.{Os, Reply, Errno, done, failed}
use multi_client_media_strea.Protocol.Trim.{is_empty}
use multi_client_media_strea.Server.{ServerConfig}
use multi_client_media_strea.Socket

-- Every address of the machine.
abbrev is_any : Bytes → Bool
is_any host = is_empty host || bytes_eq host (codes "0.0.0.0")

module _ (os : Os) where
  -- The address that a host in a configuration stands for; INADDR_ANY is 0.
  abbrev pub Chosen : Bytes → ℕ → Type 0
  Chosen host ip =
      ((is_any host ≡ true) × (ip ≡ 0)) ⊎ ((is_any host ≡ false) × (os.inet_pton host ≡ some ip))

  -- A host that stands for no address, or an address that the system does not bind.
  pub data Unbound (fd : ℕ) (host : Bytes) (port : ℕ) (v u : os.World) : Type 0 where
    unknown_host : is_any host ≡ false → os.inet_pton host ≡ none → u ≡ v → Unbound fd host port v u
    refused_address :
        {ip : ℕ} {e : Errno}
        → Chosen host ip
        → os.bind fd ip port v ≡ (failed e, u)
        → Unbound fd host port v u

  pub record Bound (fd : ℕ) (host : Bytes) (port : ℕ) (v u : os.World) : Type 0 where
    pub ip : ℕ
    pub chosen : Chosen host ip
    pub binds : os.bind fd ip port v ≡ (done tt, u)

  -- `bind` and then `listen` have succeeded on the descriptor.
  pub record Listens (config : ServerConfig) (fd : ℕ) (w' : os.World) : Type 0 where
    pub at_bind : os.World
    pub between : os.World
    pub bound : Bound fd config.host config.port at_bind between
    pub listens : os.listen fd config.backlog between ≡ (done tt, w')

  -- One of the two has failed, and the descriptor has been closed.
  pub data Refused (config : ServerConfig) (fd : ℕ) (w' : os.World) : Type 0 where
    not_bound :
        {v u : os.World}
        → Unbound fd config.host config.port v u
        → w' ≡ os.close fd u
        → Refused config fd w'
    not_listening :
        {v u x : os.World} {e : Errno}
        → Bound fd config.host config.port v u
        → os.listen fd config.backlog u ≡ (failed e, x)
        → w' ≡ os.close fd x
        → Refused config fd w'

  abbrev BindEnds : ℕ → Bytes → ℕ → os.World → Bool × os.World → Type 0
  BindEnds fd host port v r =
      ((r.0 ≡ false) × Unbound fd host port v r.1) ⊎ ((r.0 ≡ true) × Bound fd host port v r.1)

  bind_at :
      (fd : ℕ) (host : Bytes) (port ip : ℕ) (v : os.World) (r : Reply (Unit {0}) × os.World)
      → Chosen host ip
      → os.bind fd ip port v ≡ r
      → BindEnds fd host port v
          (elim r.0 as (λ _. Bool × os.World) [ done _ ↦ (true, r.1) | failed _ ↦ (false, r.1) ])
  bind_at fd host port ip v (done tt, u) c e = inr (refl, record { ip = ip; chosen = c; binds = e })
  bind_at fd host port ip v (failed x, u) c e = inl (refl, refused_address c e)

  pub bind-cases :
      (fd : ℕ) (host : Bytes) (port : ℕ) (v : os.World)
      → BindEnds fd host port v (Socket.bind os (record { fd = pos fd }) host port v)
  unfolding Socket.bind
  bind-cases fd host port v = elim (Bool-cases (is_any host)) [
    | inl any ↦
        rw (any, Socket.bind)
          (bind_at fd host port 0 v (os.bind fd 0 port v) (inl (any, refl)) refl)
    | inr one ↦ elim (Option-cases (os.inet_pton host)) [
      | inl unknown ↦ rw (one, unknown, Socket.bind) (inl (refl, unknown_host one unknown refl))
      | inr (ip, found) ↦
          rw (one, found, Socket.bind)
            (bind_at fd host port ip v (os.bind fd ip port v) (inr (one, found)) refl)
    ]
  ]

  abbrev ListenEnds : ℕ → ℤ → os.World → Bool × os.World → Type 0
  ListenEnds fd backlog u r =
      ((r.0 ≡ false) × ((e : Errno) × (os.listen fd backlog u ≡ (failed e, r.1))))
      ⊎ ((r.0 ≡ true) × (os.listen fd backlog u ≡ (done tt, r.1)))

  pub listen-cases :
      (fd : ℕ) (backlog : ℤ) (u : os.World)
      → ListenEnds fd backlog u (Socket.listen os (record { fd = pos fd }) backlog u)
  unfolding Socket.listen
  listen-cases fd backlog u = go (os.listen fd backlog u) refl
    where
      go :
          (r : Reply (Unit {0}) × os.World)
          → os.listen fd backlog u ≡ r
          → ListenEnds fd backlog u (elim r.0 as (λ _. Bool × os.World) [
            | done _ ↦ (true, r.1)
            | failed _ ↦ (false, r.1)
          ])
      go (done tt, x) e = inr (refl, e)
      go (failed c, x) e = inl (refl, (c, e))
