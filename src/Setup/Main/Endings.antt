-- ===== src/Setup/Main/Endings.antt =====
-- How `main` of svoiptunnel/voiptunnel.cpp ends.
use svoiptunnel.Base.{
  >>=-eq-ok, [], ap, Bool-cases, Bytes, List, Option, Outcome, arith, bad_lexical_cast, codes,
  fails, false, inl, inr, length_error, none, ok, refl, returns, some, sym, system_error, true,
  ◌>>=◌, ◌∙◌, ◌∷◌, ◌≡◌, ◌⊎◌, is_empty, same, null_pointer, over_read, buffer_overflow,
  dangling_pointer, aborts,
}
use mathlib.Core.Path.{subst}
use svoiptunnel.Setup.Addresses.{host_addresses}
use svoiptunnel.Setup.Arguments.{
  Options, default_options, read_arguments, read_option, takes_value, unrecognised,
}
use svoiptunnel.Setup.Config.Singleton.{Singleton, initialize, set_addresses}
use svoiptunnel.Setup.Log.{LogPointer, file_instance, log_at, log_instance, new_log, open_log}
use svoiptunnel.Setup.Main.{
  Computer, Ended, catching, complains, ends, gives_up, items_of, log_behind, main, main_or,
  main_with, serve, serve_or,
}
use svoiptunnel.Ssl.Locks.{thread_cleanup, thread_setup}
use svoiptunnel.Setup.Startup.{Running, start}

catching-cases :
    {A : Type 0} (m : Outcome A) (instead a : A)
    → catching m instead ≡ ok a
    → (m ≡ ok a) ⊎ (a ≡ instead)
catching-cases (ok x) instead a h = inl h
catching-cases (fails bad_lexical_cast) instead a h = inr (ground arith)
catching-cases (fails length_error) instead a h = inr (ground arith)
catching-cases (fails system_error) instead a h = inr (ground arith)
catching-cases (fails buffer_overflow) instead a h = cc
catching-cases (fails over_read) instead a h = cc
catching-cases (fails null_pointer) instead a h = cc
catching-cases (fails dangling_pointer) instead a h = cc
catching-cases (fails aborts) instead a h = cc

ok_inj : {A : Type 0} {a b : A} → ok a ≡ ok b → a ≡ b
ok_inj h = ground arith

module _ {M : Type 0} (c : Computer M) where
  -- What `main` returns with, behind the choice of the log.
  serve-log :
      (log : LogPointer) (config : Singleton) (r : Running) (e : Ended M)
      → serve c log config r ≡ ok e
      → e.log ≡ log_instance log
  unfolding serve
  serve-log log config r e h =
      let (config', f, g) = >>=-eq-ok (set_addresses r.local_addr r.public_addr config) _ h in
      elim (catching-cases (c.run r >>= ends c log config') (gives_up c log config') e g) [
        | inl k ↦
            let (done, j, i) = >>=-eq-ok (c.run r) (ends c log config') k in
            let same : ends c log config' done ≡ ok e = i in ground arith
        | inr k ↦ ap (λ x. x.log) k
      ]

  serve_or-log :
      (log : LogPointer) (config : Singleton) (found : Option Running) (e : Ended M)
      → serve_or c log config found ≡ ok e
      → e.log ≡ log_instance log
  serve_or-log log config none e h = ground arith
  serve_or-log log config (some r) e h = serve-log log config r e h

  main_with-log :
      (found : LogPointer) (o : Options) (e : Ended M)
      → main_with c found o ≡ ok e
      → e.log ≡ log_instance (open_log c.streams o.log_file found)
  unfolding main_with
  main_with-log found o e h =
      let log = open_log c.streams o.log_file found in
      let config = initialize c.files o.config_file o.version_file none in
      let (r, f, g) =
        >>=-eq-ok (catching (start c.to_int o (items_of c config) (host_addresses c.host)) none)
          (serve_or c log config) h in
      serve_or-log log config r e g

  -- A log that is there stays.
  opens_same : (file_name : Bytes) → open_log c.streams file_name (log_at new_log) ≡ log_at new_log
  unfolding open_log file_instance log_instance
  opens_same file_name = elim (Bool-cases (is_empty file_name)) [
    | inl none_given ↦ rw none_given refl
    | inr given ↦ rw given refl
  ]

  asks_same : log_instance (log_at new_log) ≡ log_at new_log
  unfolding log_instance
  asks_same = refl

  main_or-log :
      (o : Option Options) (e : Ended M)
      → main_or c (log_at new_log) o ≡ ok e
      → e.log ≡ log_at new_log
  main_or-log none e h = ground (arith, asks_same)
  main_or-log (some o) e h =
      main_with-log (log_at new_log) o e h ∙ ap log_instance (opens_same o.log_file) ∙ asks_same

  no_option :
      (o : Options) (a b : Bytes)
      → takes_value a ≡ false
      → read_option c.to_ushort c.to_unsigned o a b ≡ unrecognised
  unfolding takes_value read_option
  no_option o a b h = ground arith

  unrecognised_value :
      (o : Options) (name : Bytes) (rest : List Bytes)
      → takes_value name ≡ false
      → complains c false o (name ∷ rest) ≡ true
  unfolding complains
  unrecognised_value o name [] h = refl
  unrecognised_value o name (b ∷ rest) h = rw (no_option o name b h) refl

  logged :
      (name : Bytes) (rest : List Bytes)
      → takes_value name ≡ false
      → log_behind c (codes "-f" ∷ name ∷ rest) ≡ log_at new_log
  unfolding complains log_instance same
  logged name rest h =
      rw (unrecognised_value (record default_options { config_file = name }) name rest h) refl

  -- The value of `-f` as the first argument is taken for an option as well, and unless it is spelled like one it
  -- is logged as unrecognised. That makes the log before the log file is known, so if `main` returns, its
  -- log is the one that writes to the console, whatever `-logfile` says.
  pub config_file-console :
      (name : Bytes) (rest : List Bytes) (e : Ended M)
      → takes_value name ≡ false
      → main c (codes "-f" ∷ name ∷ rest) ≡ ok e
      → e.log ≡ log_at new_log
  unfolding main log_instance
  config_file-console name rest e h k =
      let args = codes "-f" ∷ name ∷ rest in
      let (o, f, g) =
        >>=-eq-ok (read_arguments c.to_ushort c.to_unsigned true default_options args)
          (main_or c (log_behind c args)) k in
      main_or-log o e (subst (λ p. main_or c p o ≡ ok e) (logged name rest h) g)

  -- What `main` has done when it returns 0.
  abbrev pub Served : Options → Ended M → Type 0
  Served o e =
      let config = initialize c.files o.config_file o.version_file none in
      (r : Running) × (start c.to_int o (items_of c config) (host_addresses c.host) ≡ ok (some r))
      × (set_addresses r.local_addr r.public_addr config ≡ ok e.config)
      × (returns (c.run r) ≡ true)
      × (e.locks ≡ none)

  cleaned_up :
      (thread_cleanup c.mutexes (thread_setup c.mutexes c.lock_count c.can_allocate).0).0 ≡ none
  unfolding thread_setup thread_cleanup
  cleaned_up = elim (Bool-cases c.can_allocate) [
    | inl there ↦ rw there refl
    | inr short ↦ rw short refl
  ]

  serve-Served :
      (o : Options) (log : LogPointer) (r : Running) (e : Ended M)
      → start c.to_int o
          (items_of c (initialize c.files o.config_file o.version_file none))
          (host_addresses c.host)
        ≡ ok (some r)
      → serve c log (initialize c.files o.config_file o.version_file none) r ≡ ok e
      → e.is_zero ≡ true
      → Served o e
  unfolding serve
  serve-Served o log r e found h zero_code =
      let config = initialize c.files o.config_file o.version_file none in
      let (config', f, g) = >>=-eq-ok (set_addresses r.local_addr r.public_addr config) _ h in
      elim (catching-cases (c.run r >>= ends c log config') (gives_up c log config') e g) [
        | inl k ↦
            let (done, j, i) = >>=-eq-ok (c.run r) (ends c log config') k in
            let end = ok_inj i in
            (
              r,
              found,
              f ∙ ap (λ x. ok x.config) end,
              ap returns j,
              sym (ap (λ x. x.locks) end) ∙ cleaned_up,
            )
        | inr k ↦ absurd (ground (arith, ap (λ x. x.is_zero) k))
      ]

  serve_or-Served :
      (o : Options) (log : LogPointer) (made : Option Running) (e : Ended M)
      → (start c.to_int o
            (items_of c (initialize c.files o.config_file o.version_file none))
            (host_addresses c.host)
          ≡ ok made)
        ⊎ (made ≡ none)
      → serve_or c log (initialize c.files o.config_file o.version_file none) made ≡ ok e
      → e.is_zero ≡ true
      → Served o e
  serve_or-Served o log none e found h zero_code =
      absurd (ground (arith, ap (λ x. x.is_zero) (ok_inj h)))
  serve_or-Served o log (some r) e (inl k) h zero_code = serve-Served o log r e k h zero_code
  serve_or-Served o log (some r) e (inr k) h zero_code = cc

  main_with-Served :
      (found : LogPointer) (o : Options) (e : Ended M)
      → main_with c found o ≡ ok e
      → e.is_zero ≡ true
      → Served o e
  unfolding main_with
  main_with-Served found o e h zero_code =
      let log = open_log c.streams o.log_file found in
      let config = initialize c.files o.config_file o.version_file none in
      let started = start c.to_int o (items_of c config) (host_addresses c.host) in
      let (made, f, g) = >>=-eq-ok (catching started none) (serve_or c log config) h in
      serve_or-Served o log made e (catching-cases started none made f) g zero_code

  main_or-Served :
      (found : LogPointer) (read : Option Options) (e : Ended M)
      → main_or c found read ≡ ok e
      → e.is_zero ≡ true
      → (o : Options) × (read ≡ some o) × Served o e
  main_or-Served found none e h zero_code = absurd (ground (arith, ap (λ x. x.is_zero) (ok_inj h)))
  main_or-Served found (some o) e h zero_code = (o, refl, main_with-Served found o e h zero_code)

  -- If `main` returns 0, then it has read the arguments, started a link, set the two addresses of the
  -- configuration to those that it started with, come back from the event loop, and freed the mutexes.
  pub main-Served :
      (args : List Bytes) (e : Ended M)
      → main c args ≡ ok e
      → e.is_zero ≡ true
      → (o : Options) × (read_arguments c.to_ushort c.to_unsigned true default_options args
          ≡ ok (some o))
        × Served o e
  unfolding main
  main-Served args e h zero_code =
      let (read, f, g) =
        >>=-eq-ok (read_arguments c.to_ushort c.to_unsigned true default_options args)
          (main_or c (log_behind c args)) h in
      let (o, same_read, served) = main_or-Served (log_behind c args) read e g zero_code in
      (o, f ∙ ap ok same_read, served)
