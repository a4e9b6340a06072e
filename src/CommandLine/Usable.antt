-- ===== src/CommandLine/Usable.antt =====
-- What the server can rely on in a configuration that comes from the command line.
use multi_client_media_strea.Base.{
  ◌<◌, ◌%◌, ◌^◌, List, [], ◌∷◌, ◌≡◌, arith, inl, inr, Bool-cases, Option, none, some, Bytes, ◌==◌,
}
use multi_client_media_strea.CommandLine.{
  strtoul, CommandOption, help, port, media_dir, chunk_size, backlog, log_file, log_level,
  other_option, option_of, set_option, CommandLine, bad_usage, launch, is_help, read_arguments,
}
use multi_client_media_strea.Os.Monad.{Ensures}
use multi_client_media_strea.Server.{ServerConfig}

pub record IsUsable (config : ServerConfig) : Type 0 where
  pub port_nonzero : 0 < config.port
  pub port_bound : config.port < 2 ^ 16
  pub chunked : 0 < config.chunk_size

set_option-IsUsable :
    (option : CommandOption) (value : Bytes) (config : ServerConfig) (level : Bytes)
    → IsUsable config
    → Ensures (λ r. IsUsable r.0) (set_option option value config level)
unfolding set_option
set_option-IsUsable port value config level u = elim (Bool-cases (strtoul value % 2 ^ 16 == 0)) [
  | inl e ↦ rw (e, set_option) tt
  | inr e ↦
      rw (e, set_option)
        (record { port_nonzero = ground arith; port_bound = omega arith; chunked = u.chunked })
]
set_option-IsUsable chunk_size value config level u = elim (Bool-cases (strtoul value == 0)) [
  | inl e ↦ rw (e, set_option) tt
  | inr e ↦
      rw (e, set_option)
        (record {
          port_nonzero = u.port_nonzero;
          port_bound = u.port_bound;
          chunked = ground arith;
        })
]
set_option-IsUsable media_dir value config level u = record {
  port_nonzero = u.port_nonzero;
  port_bound = u.port_bound;
  chunked = u.chunked;
}
set_option-IsUsable backlog value config level u = record {
  port_nonzero = u.port_nonzero;
  port_bound = u.port_bound;
  chunked = u.chunked;
}
set_option-IsUsable log_file value config level u = record {
  port_nonzero = u.port_nonzero;
  port_bound = u.port_bound;
  chunked = u.chunked;
}
set_option-IsUsable log_level value config level u = u
set_option-IsUsable help value config level u = tt
set_option-IsUsable other_option value config level u = tt

abbrev Launches : CommandLine → Type 0
Launches (launch config level) = IsUsable config
Launches _ = Unit {0}

read_on :
    (set : Option (ServerConfig × Bytes)) (rest : List Bytes)
    → Ensures (λ r. IsUsable r.0) set
    → ((config : ServerConfig) (level : Bytes)
        → IsUsable config
        → Launches (read_arguments rest config level))
    → Launches (elim set as (λ _. CommandLine) [
      | none ↦ bad_usage
      | some (config', level') ↦ read_arguments rest config' level'
    ])
read_on none rest h k = tt
read_on (some (config', level')) rest h k = k config' level' h

read_arguments-Launches :
    (args : List Bytes) (config : ServerConfig) (level : Bytes)
    → IsUsable config
    → Launches (read_arguments args config level)
unfolding read_arguments
read_arguments-Launches [] config level u = u
read_arguments-Launches (arg ∷ []) config level u = elim (Bool-cases (is_help (option_of arg))) [
  | inl e ↦ rw (e, read_arguments) tt
  | inr e ↦ rw (e, read_arguments) tt
]
read_arguments-Launches (arg ∷ (value ∷ rest)) config level u =
    elim (Bool-cases (is_help (option_of arg))) [
      | inl e ↦ rw (e, read_arguments) tt
      | inr e ↦
          rw (e, read_arguments)
            (read_on (set_option (option_of arg) value config level) rest
              (set_option-IsUsable (option_of arg) value config level u)
              (read_arguments-Launches rest))
    ]

-- If the loop over the arguments starts from a configuration with a port from 1 to 65535 and a chunk
-- size that is not 0, then the configuration that it ends with has these as well.
pub read_arguments-IsUsable :
    (args : List Bytes) (config config' : ServerConfig) (level level' : Bytes)
    → IsUsable config
    → read_arguments args config level ≡ launch config' level'
    → IsUsable config'
read_arguments-IsUsable args config config' level level' u e =
    rw e at (read_arguments-Launches args config level u)
