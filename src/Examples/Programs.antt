-- ===== src/Examples/Programs.antt =====
-- The log and `main`, svoiptunnel/log.cpp and voiptunnel.cpp, at concrete inputs.
use svoiptunnel.Base.{
  Bytes, List, Outcome, [], codes, false, none, ok, refl, same, some, true, ◌∷◌, ◌≡◌, ℕ, fails,
}
use svoiptunnel.Base.Dict.{assign, find}
use svoiptunnel.Examples.Setups.{decimal, lines}
use svoiptunnel.Setup.Addresses.{Host}
use svoiptunnel.Setup.Arguments.{Options, default_options, read_arguments, takes_value}
use svoiptunnel.Setup.Config.Items.{print}
use svoiptunnel.Setup.Config.Singleton.{initialize}
use svoiptunnel.Setup.Log.{
  Statement, Streams, Written, do_all, file, get, get_file, info, line, log_at, log_instance,
  new_log, open_log, text_item, unset,
}
use svoiptunnel.Setup.Log.Kept.{GoesTo, open_log-GoesTo}
use svoiptunnel.Setup.Main.{Computer, Ended, complains, main, serve}
use svoiptunnel.Setup.Main.Endings.{Served, config_file-console, main-Served}
use svoiptunnel.Setup.Startup.{start}
use svoiptunnel.Ssl.Locks.{Mutexes}

abbrev streams : Streams
streams = record { can_open = λ name. true; show_unsigned = λ n. n ∷ []; show_int = λ n. n ∷ [] }

abbrev statements : List Statement
statements =
    line info (codes "now") (text_item (codes "started") ∷ []) ∷ get_file (codes "other") ∷ get ∷ []

open_log-GoesTo_example :
    (w : Written) × (do_all streams statements (open_log streams (codes "log.txt") unset)
      ≡ ok (open_log streams (codes "log.txt") unset, w))
    × GoesTo (file (codes "log.txt")) w
open_log-GoesTo_example =
    open_log-GoesTo streams (codes "log.txt") unset statements (λ e. cc) (tt, (tt, (tt, tt)))

abbrev mutexes : Mutexes ℕ
mutexes = record { fresh = 0; do_lock = λ n m. ok (some 1); do_unlock = λ n m. ok (some 0) }

abbrev host : Host
host = record {
  host_name = some (codes "office");
  lookup = λ name. some (codes "192.168.0.7" ∷ codes "127.0.1.1" ∷ []);
}

abbrev computer : Computer ℕ
computer = record {
  to_ushort = decimal;
  to_unsigned = decimal;
  to_int = decimal;
  files = record { words = λ name. some (print lines); version_word = λ name old. codes "1" };
  streams = streams;
  host = host;
  mutexes = mutexes;
  lock_count = 2;
  can_allocate = true;
  run = λ r. ok true;
}

abbrev arguments : List Bytes
arguments = codes "-f" ∷ codes "my.config" ∷ codes "-logfile" ∷ codes "log.txt" ∷ []

abbrev value : {A : Type 0} → A → Outcome A → A
value a (ok b) = b
value a (fails why) = a

abbrev ended : Ended ℕ
ended =
    value (record { is_zero = false; log = unset; config = none; locks = none })
      (main computer arguments)

is_zero_test : ended.is_zero ≡ true
unfolding main takes_value same initialize start find assign serve open_log complains log_instance
is_zero_test = refl

config_file-console_example : ended.log ≡ log_at new_log
unfolding main takes_value same initialize start find assign serve open_log complains log_instance
config_file-console_example =
    config_file-console computer (codes "my.config") (codes "-logfile" ∷ codes "log.txt" ∷ []) ended
      refl refl

main-Served_example :
    (o : Options) × (read_arguments decimal decimal true default_options arguments ≡ ok (some o))
    × Served computer o ended
unfolding main takes_value same initialize start find assign serve open_log complains log_instance
main-Served_example = main-Served computer arguments ended refl refl
