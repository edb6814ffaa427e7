-- ===== src/Setup/Main.antt =====
-- `main` of svoiptunnel/voiptunnel.cpp as a whole: the arguments, the log, the configuration, the mutexes of
-- OpenSSL, what is started, and the end. The event loop is a parameter.
pub mod Endings
use svoiptunnel.Base.{
  ℕ, Bool, Bytes, List, Option, Outcome, [], bad_lexical_cast, codes, fails, false, if◌then◌else◌,
  length_error, none, ok, same, some, system_error, true, ◌&&◌, ◌>>=◌, ◌||◌, ◌∷◌,
}
use svoiptunnel.Base.Dict.{Dict}
use svoiptunnel.Setup.Addresses.{Host, host_addresses}
use svoiptunnel.Setup.Arguments.{
  Options, Reading, default_options, read_arguments, read_option, refused, sets, takes_value,
  unrecognised,
}
use svoiptunnel.Setup.Config.Singleton.{Config, Files, Singleton, initialize, set_addresses}
use svoiptunnel.Setup.Log.{LogPointer, Streams, log_instance, open_log, unset}
use svoiptunnel.Setup.Startup.{Running, start}
use svoiptunnel.Ssl.Locks.{MutexBuf, Mutexes, thread_cleanup, thread_setup}

-- What the program runs on: `boost::lexical_cast` to numbers, the files, the addresses of the host,
-- `malloc` and `CRYPTO_num_locks` for the mutexes, and the event loop, which an exception of a handler leaves.
pub record Computer (M : Type 0) : Type 0 where
  pub to_ushort : Bytes → Option ℕ
  pub to_unsigned : Bytes → Option ℕ
  pub to_int : Bytes → Option ℕ
  pub files : Files
  pub streams : Streams
  pub host : Host
  pub mutexes : Mutexes M
  pub lock_count : ℕ
  pub can_allocate : Bool
  pub run : Running → Outcome Bool

-- What `main` returns, 0 or -1, and what it leaves.
pub record Ended (M : Type 0) : Type 0 where
  pub is_zero : Bool
  pub log : LogPointer
  pub config : Singleton
  pub locks : Option (List M)

-- What `catch (std::exception&)` does not catch goes on: it is no exception.
abbrev pub catching : {A : Type 0} → Outcome A → A → Outcome A
catching (ok a) instead = ok a
catching (fails bad_lexical_cast) instead = ok instead
catching (fails length_error) instead = ok instead
catching (fails system_error) instead = ok instead
catching (fails why) instead = fails why

abbrev is_none : {A : Type 0} → Option A → Bool
is_none none = true
is_none (some a) = false

module _ {M : Type 0} (c : Computer M) where
  -- Whether the value of a numeric option cannot be read, which is logged.
  abbrev unread : Bytes → Bytes → Bool
  unread a b =
      (same a (codes "-l") && is_none (c.to_ushort b))
      || (same a (codes "-p") && is_none (c.to_unsigned b))

  -- Whether the loop over the arguments logs something; the loop is that of read_arguments.
  unfoldable pub complains : Bool → Options → List Bytes → Bool
  unfolding takes_value read_option
  complains first o [] = false
  complains first o (a ∷ []) = true
  complains first o (a ∷ b ∷ rest) =
      let at_value = complains false (record o { config_file = b }) (b ∷ rest) in
      if first && same a (codes "-f")
      then at_value
      else elim (read_option c.to_ushort c.to_unsigned o a b) as (λ _. Bool) [
        | sets o' ↦ let later = complains true o' rest in unread a b || later
        | refused ↦ true
        | unrecognised ↦ true
      ]

  -- The log that the loop leaves.
  abbrev pub log_behind : List Bytes → LogPointer
  log_behind args = if complains true default_options args then log_instance unset else unset

  -- The end of `main` with -1, once the mutexes have been made.
  abbrev pub gives_up : LogPointer → Singleton → Ended M
  gives_up log config = record {
    is_zero = false;
    log = log_instance log;
    config = config;
    locks = (thread_setup c.mutexes c.lock_count c.can_allocate).0;
  }

  -- Behind the event loop, the link and the server are deleted.
  abbrev pub ends : LogPointer → Singleton → Bool → Outcome (Ended M)
  ends log config done = ok (record {
    is_zero = true;
    log = log_instance log;
    config = config;
    locks = (thread_cleanup c.mutexes (thread_setup c.mutexes c.lock_count c.can_allocate).0).0;
  })

  -- What is started runs until the event loop returns.
  unfoldable pub serve : LogPointer → Singleton → Running → Outcome (Ended M)
  unfolding set_addresses thread_setup thread_cleanup log_instance
  serve log config r = set_addresses r.local_addr r.public_addr config >>= λ config'.
      catching (c.run r >>= ends log config') (gives_up log config')

  abbrev pub items_of : Singleton → Dict Bytes Bytes
  items_of none = []
  items_of (some config) = config.items

  abbrev pub serve_or : LogPointer → Singleton → Option Running → Outcome (Ended M)
  serve_or log config none = ok (gives_up log config)
  serve_or log config (some r) = serve log config r

  -- `main` behind the arguments. The reference to no object on which `initialize` is called is not used.
  unfoldable pub main_with : LogPointer → Options → Outcome (Ended M)
  unfolding open_log initialize start serve log_instance host_addresses
  main_with found o =
      let log = open_log c.streams o.log_file found in
      let config = initialize c.files o.config_file o.version_file none in
      catching (start c.to_int o (items_of config) (host_addresses c.host)) none
      >>= serve_or log config

  abbrev pub main_or : LogPointer → Option Options → Outcome (Ended M)
  main_or found none =
      ok (record { is_zero = false; log = log_instance found; config = none; locks = none })
  main_or found (some o) = main_with found o

  unfoldable pub main : List Bytes → Outcome (Ended M)
  unfolding read_arguments complains main_with
  main args =
      read_arguments c.to_ushort c.to_unsigned true default_options args
      >>= main_or (log_behind args)
