-- ===== src/Client/Arguments/Ready.antt =====
-- What the client's command line says when the client connects.
use multi_client_media_strea.Base.{
  ◌<◌, ◌^◌, Bool, true, false, List, [], ◌∷◌, ◌≡◌, ◌≢◌, refl, arith, Option, none, some, Bytes, ℤ,
  pos, negsuc, inl, inr, Bool-cases, ◌==◌,
}
use multi_client_media_strea.Client.Arguments.{
  ClientArguments, default_arguments, to_uint16, has_list, ClientOption, is_address, is_flag,
  set_value, is_positional, list_argument, list_arguments, get_arguments, flag_arguments,
  set_positional, client_option, server, port, get, output_dir, other_option, Invocation, connects,
  first_is_help, check_arguments, read_client_arguments,
}
use multi_client_media_strea.CommandLine.{atoi}
use multi_client_media_strea.Os.Monad.{Ensures}
use multi_client_media_strea.Protocol.Trim.{is_empty}

to_uint16_bound : (z : ℤ) → to_uint16 z < 2 ^ 16
to_uint16_bound (pos n) = omega arith
to_uint16_bound (negsuc n) = omega arith

set_value_bound :
    (o : ClientOption) (value : Bytes) (a : ClientArguments)
    → a.port < 2 ^ 16
    → (set_value o value a).port < 2 ^ 16
unfolding set_value
set_value_bound server value a h = h
set_value_bound port value a h = to_uint16_bound (atoi value)
set_value_bound get value a h = h
set_value_bound output_dir value a h = h
set_value_bound other_option value a h = h

-- What the list mode keeps of its arguments.
abbrev Browses : ClientArguments → Type 0
Browses a = (a.port < 2 ^ 16) × (a.get_file ≡ [])

list_argument-Browses :
    (arg : Bytes) (state : Bool × ClientArguments)
    → Browses state.1
    → Browses (list_argument arg state).1
unfolding list_argument set_positional
list_argument-Browses arg (false, a) h = ground (arith, h)
list_argument-Browses arg (true, a) h = ground (arith, h, to_uint16_bound (atoi arg))

set_value-Browses :
    (o : ClientOption) (value : Bytes) (a : ClientArguments)
    → is_address o ≡ true
    → Browses a
    → Browses (set_value o value a)
unfolding set_value
set_value-Browses server value a e h = h
set_value-Browses port value a e h = (to_uint16_bound (atoi value), h.1)
set_value-Browses get value a e h = cc
set_value-Browses output_dir value a e h = cc
set_value-Browses other_option value a e h = cc

list_arguments-Browses :
    (args : List Bytes) (state : Bool × ClientArguments)
    → Browses state.1
    → Browses (list_arguments args state).1
unfolding list_arguments
list_arguments-Browses [] state h = h
list_arguments-Browses (arg ∷ []) state h = elim (Bool-cases (is_address (client_option arg))) [
  | inl e ↦ rw (e, list_arguments) h
  | inr e ↦ rw (e, list_arguments) (list_argument-Browses arg state h)
]
list_arguments-Browses (arg ∷ (value ∷ rest)) (host_set, a) h =
    elim (Bool-cases (is_address (client_option arg))) [
      | inl e ↦
          rw (e, list_arguments)
            (list_arguments-Browses rest (host_set, set_value (client_option arg) value a)
              (set_value-Browses (client_option arg) value a e h))
      | inr e ↦
          rw (e, list_arguments)
            (list_arguments-Browses (value ∷ rest) (list_argument arg (host_set, a))
              (list_argument-Browses arg (host_set, a) h))
    ]

abbrev BoundedPort : ClientArguments → Type 0
BoundedPort a = a.port < 2 ^ 16

flag_arguments_bound :
    (args : List Bytes) (a : ClientArguments)
    → a.port < 2 ^ 16
    → Ensures BoundedPort (flag_arguments args a)
unfolding flag_arguments
flag_arguments_bound [] a h = h
flag_arguments_bound (arg ∷ []) a h = elim (Bool-cases (is_flag (client_option arg))) [
  | inl e ↦ rw (e, flag_arguments) h
  | inr e ↦ rw (e, flag_arguments) tt
]
flag_arguments_bound (arg ∷ (value ∷ rest)) a h = elim (Bool-cases (is_flag (client_option arg))) [
  | inl e ↦
      rw (e, flag_arguments)
        (flag_arguments_bound rest (set_value (client_option arg) value a)
          (set_value_bound (client_option arg) value a h))
  | inr e ↦ rw (e, flag_arguments) tt
]

get_arguments_bound :
    (args : List Bytes) (a : ClientArguments)
    → a.port < 2 ^ 16
    → Ensures BoundedPort (get_arguments args a)
unfolding get_arguments
get_arguments_bound [] a h = flag_arguments_bound [] a h
get_arguments_bound (x ∷ []) a h = flag_arguments_bound (x ∷ []) a h
get_arguments_bound (x ∷ (y ∷ [])) a h = flag_arguments_bound (x ∷ (y ∷ [])) a h
get_arguments_bound (x ∷ (y ∷ (z ∷ []))) a h = elim (Bool-cases (is_positional x)) [
  | inl e ↦ rw (e, get_arguments) (to_uint16_bound (atoi y))
  | inr e ↦ rw (e, get_arguments) (flag_arguments_bound (x ∷ (y ∷ (z ∷ []))) a h)
]
get_arguments_bound (x ∷ (y ∷ (z ∷ (d ∷ rest)))) a h = elim (Bool-cases (is_positional x)) [
  | inl e ↦ rw (e, get_arguments) (to_uint16_bound (atoi y))
  | inr e ↦ rw (e, get_arguments) (flag_arguments_bound (x ∷ (y ∷ (z ∷ (d ∷ rest)))) a h)
]

-- What `main` has when it connects.
pub record IsReady (args : List Bytes) (list_mode : Bool) (a : ClientArguments) : Type 0 where
  pub port_nonzero : 0 < a.port
  pub port_bound : a.port < 2 ^ 16
  pub mode : has_list args ≡ list_mode
  pub if_list : list_mode ≡ true → a.get_file ≡ []
  pub if_get : list_mode ≡ false → a.get_file ≢ []

abbrev Readies : List Bytes → Invocation → Type 0
Readies args (connects list_mode a) = IsReady args list_mode a
Readies args _ = Unit {0}

check_listed :
    (args : List Bytes) (a : ClientArguments)
    → has_list args ≡ true
    → Browses a
    → Readies args (check_arguments true (some a))
unfolding check_arguments
check_listed args a m h = elim (Bool-cases (a.port == 0)) [
  | inl e ↦ rw (e, check_arguments) tt
  | inr e ↦
      rw (e, check_arguments)
        (record {
          port_nonzero = ground (arith, e);
          port_bound = h.0;
          mode = m;
          if_list = λ _. h.1;
          if_get = λ q. cc;
        })
]

filled : (s : Bytes) → is_empty s ≡ false → s ≢ []
unfolding is_empty
filled [] h = cc
filled (c ∷ s) h = λ e. cc

check_got :
    (args : List Bytes) (o : Option ClientArguments)
    → has_list args ≡ false
    → Ensures BoundedPort o
    → Readies args (check_arguments false o)
unfolding check_arguments is_empty
check_got args none m h = tt
check_got args (some a) m h = elim (Bool-cases (is_empty a.get_file)) [
  | inl none_named ↦ rw (none_named, check_arguments) tt
  | inr named ↦ elim (Bool-cases (a.port == 0)) [
    | inl e ↦ rw (named, e, check_arguments) tt
    | inr e ↦
        rw (named, e, check_arguments)
          (record {
            port_nonzero = ground (arith, e);
            port_bound = h;
            mode = m;
            if_list = λ q. cc;
            if_get = λ _. filled a.get_file named;
          })
  ]
]

invocation-Readies : (args : List Bytes) → Readies args (read_client_arguments args)
unfolding read_client_arguments
invocation-Readies args = elim (Bool-cases (first_is_help args)) [
  | inl help ↦ rw (help, read_client_arguments) tt
  | inr more ↦ elim (Bool-cases (has_list args)) [
    | inl listed ↦
        rw (more, listed, read_client_arguments)
          (check_listed args (list_arguments args (false, default_arguments)).1 listed
            (list_arguments-Browses args (false, default_arguments) (omega arith, refl)))
    | inr got ↦
        rw (more, got, read_client_arguments)
          (check_got args (get_arguments args default_arguments) got
            (get_arguments_bound args default_arguments (omega arith)))
  ]
]

-- Whatever the arguments are, if `main` goes on to connect, then the port is from 1 to 65535, it is in
-- list mode just if some argument is `-l` or `--list`, and it has the name of a file just if it is
-- not.
pub read_client_arguments-IsReady :
    (args : List Bytes) (list_mode : Bool) (a : ClientArguments)
    → read_client_arguments args ≡ connects list_mode a
    → IsReady args list_mode a
read_client_arguments-IsReady args list_mode a e = rw e at (invocation-Readies args)
