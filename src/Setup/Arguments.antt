-- ===== src/Setup/Arguments.antt =====
-- The command line in `main` of svoiptunnel/voiptunnel.cpp. `to_ushort` and `to_unsigned` are
-- `boost::lexical_cast` to these types, none where it throws; a null pointer that is made into a string,
-- or printed, is a failure.
pub mod Spelled
use svoiptunnel.Base.{
  ℕ, ◌%◌, ◌^◌, Bool, true, false, ◌&&◌, ◌||◌, List, [], ◌∷◌, Bytes, codes, same, is_empty, Option,
  none, some, Outcome, ok, fails, null_pointer, over_read, ◌>>=◌, if◌then◌else◌, ◌==◌,
}
use svoiptunnel.Base.Dict.{Dict}
use svoiptunnel.Setup.Config.{value_string, value_int}

-- `ETunnelMode`
pub data TunnelMode : Type 0 where
  mode_invalid mode_client mode_server : TunnelMode

-- `ETunnelType`
pub data TunnelType : Type 0 where
  invalid udp dtls tcp tls http https websockets : TunnelType

-- The variables that the arguments set. `have_local_ip` is the flag of `local_ip`; the public one
-- needs its flag too, since it may be set to the empty text.
pub record Options : Type 0 where
  pub config_file : Bytes
  pub version_file : Bytes
  pub mode : TunnelMode
  pub listen_port : ℕ
  pub server_addr : Bytes
  pub server_port : ℕ
  pub have_local_ip : Bool
  pub local_ip : Bytes
  pub have_public_ip : Bool
  pub public_ip : Bytes
  pub log_file : Bytes

abbrev pub default_options : Options
default_options = record {
  config_file = codes "voiptunnel.config";
  version_file = codes "version";
  mode = mode_invalid;
  listen_port = 5060;
  server_addr = [];
  server_port = 0;
  have_local_ip = false;
  local_ip = [];
  have_public_ip = false;
  public_ip = [];
  log_file = [];
}

-- What one argument does together with the next: set an option, end the program with -1, or nothing.
pub data Reading : Type 0 where
  sets : Options → Reading
  refused unrecognised : Reading

-- Whether the chain of the second `if` takes a value for the argument.
unfoldable pub takes_value : Bytes → Bool
takes_value a =
    same a (codes "-v")
    || same a (codes "-m")
    || same a (codes "-l")
    || same a (codes "-h")
    || same a (codes "-p")
    || same a (codes "-localip")
    || same a (codes "-publicip")
    || same a (codes "-logfile")

module _ (to_ushort to_unsigned : Bytes → Option ℕ) where
  -- A number that cannot be read leaves the option as it is.
  abbrev pub with_listen_port : Options → Option ℕ → Options
  with_listen_port o none = o
  with_listen_port o (some n) = record o { listen_port = n }

  abbrev pub with_server_port : Options → Option ℕ → Options
  with_server_port o none = o
  with_server_port o (some n) = record o { server_port = n }

  -- The chain of the second `if`, at the argument `a` with the value `b`.
  unfoldable pub read_option : Options → Bytes → Bytes → Reading
  read_option o a b =
      if same a (codes "-v")
      then sets (record o { version_file = b })
      else if same a (codes "-m")
      then (if same b (codes "c")
          then sets (record o { mode = mode_client })
          else if same b (codes "s")
          then sets (record o { mode = mode_server })
          else refused)
      else if same a (codes "-l")
      then sets (with_listen_port o (to_ushort b))
      else if same a (codes "-h")
      then sets (record o { server_addr = b })
      else if same a (codes "-p")
      then sets (with_server_port o (to_unsigned b))
      else if same a (codes "-localip")
      then sets (record o { have_local_ip = true; local_ip = b })
      else if same a (codes "-publicip")
      then sets (record o { have_public_ip = true; public_ip = b })
      else if same a (codes "-logfile")
      then sets (record o { log_file = b })
      else unrecognised

  -- The loop over the arguments; none where the program ends with -1. The flag is whether the first
  -- `if`, that of `-f`, is still to be tested: its value goes through the second `if` as well. An
  -- option that is last has the null pointer `argv[argc]` compared with the next option.
  unfoldable pub read_arguments : Bool → Options → List Bytes → Outcome (Option Options)
  unfolding takes_value read_option
  read_arguments first o [] = ok (some o)
  read_arguments first o (a ∷ []) =
      if (first && same a (codes "-f")) || takes_value a then fails null_pointer else ok (some o)
  read_arguments first o (a ∷ b ∷ rest) =
      let at_value = read_arguments false (record o { config_file = b }) (b ∷ rest) in
      let at_next = read_arguments true o (b ∷ rest) in
      if first && same a (codes "-f")
      then at_value
      else elim (read_option o a b) as (λ _. Outcome (Option Options)) [
        | sets o' ↦ read_arguments true o' rest
        | refused ↦ ok none
        | unrecognised ↦ at_next
      ]
