-- ===== src/Setup/Log.antt =====
-- The log of svoiptunnel/log.cpp: the one object that `_pLog` leads to, and what it writes.
pub mod Kept
use svoiptunnel.Base.{
  ℕ, Bool, Bytes, List, Outcome, [], codes, dangling_pointer, fails, if◌then◌else◌, is_empty,
  null_pointer, ok, true, ◌++◌, ◌>>=◌, ◌∷◌,
}

-- `std::cout`, or a file by its name.
pub data Stream : Type 0 where
  console : Stream
  file : Bytes → Stream

-- A `Log` or a `LogFile`: `_pstream`, and whether the stream is good.
pub record Log : Type 0 where
  pub stream : Stream
  pub is_good : Bool

-- `_pLog`: null, an object, or one that has been deleted.
pub data LogPointer : Type 0 where
  unset deleted : LogPointer
  log_at : Log → LogPointer

-- What is written, and where to.
abbrev pub Written : Type 0
Written = List (Stream × Bytes)

-- What the streams and the clock answer: whether `ofstream::open` succeeds for a file, and how a number is
-- printed, an `int` by its 32 bits.
pub record Streams : Type 0 where
  pub can_open : Bytes → Bool
  pub show_unsigned : ℕ → Bytes
  pub show_int : ℕ → Bytes

-- The constructor of a `Log`, and `LogFile::LogFile` with `Open`.
abbrev pub new_log : Log
new_log = record { stream = console; is_good = true }

unfoldable pub new_log_file : Streams → Bytes → Log
new_log_file st name = record { stream = file name; is_good = st.can_open name }

-- `Log::instance` and `LogFile::instance`.
unfoldable pub log_instance : LogPointer → LogPointer
log_instance unset = log_at new_log
log_instance p = p

unfoldable pub file_instance : Streams → Bytes → LogPointer → LogPointer
unfolding new_log_file
file_instance st name unset = log_at (new_log_file st name)
file_instance st name p = p

-- `_pLog` keeps the address of the object that it deletes.
unfoldable pub destroy_log : LogPointer → Outcome LogPointer
destroy_log unset = ok unset
destroy_log (log_at l) = ok deleted
destroy_log deleted = fails dangling_pointer

abbrev pub here : LogPointer → Outcome Log
here unset = fails null_pointer
here deleted = fails dangling_pointer
here (log_at l) = ok l

-- A stream that is not good takes nothing.
unfoldable pub write : Log → Bytes → Written
write l text = if l.is_good then (l.stream, text) ∷ [] else []

-- What `<<` is given: a text, a number, or a manipulator with what it puts into a stream.
pub data Item : Type 0 where
  text_item : Bytes → Item
  manipulator : Bytes → Item
  unsigned_item int_item : ℕ → Item

-- `Log::operator<<`
unfoldable pub put : Streams → Item → Log → Written
unfolding write
put st (text_item s) l = write l s
put st (manipulator s) l = write l s
put st (unsigned_item i) l = write l (st.show_unsigned i)
put st (int_item i) l = write l (st.show_int i)

unfoldable pub put_all : Streams → List Item → Log → Written
unfolding put
put_all st [] l = []
put_all st (i ∷ is) l = put st i l ++ put_all st is l

pub data Level : Type 0 where
  info debug warning err : Level

abbrev pub level_text : Level → Bytes
level_text info = codes " INFO "
level_text debug = codes " DEBUG "
level_text warning = codes " WARN "
level_text err = codes " ERR "

-- `log_info`, `log_debug`, `log_warning` and `log_error`, with the time as a text, and what the statement puts
-- behind them.
unfoldable pub log_line :
    Streams → Level → Bytes → List Item → LogPointer → Outcome (LogPointer × Written)
unfolding log_instance write put_all
log_line st level now items p =
    let p' = log_instance p in
    here p' >>= λ l. ok (p', write l now ++ write l (level_text level) ++ put_all st items l)

-- The statements of a program that are about the log.
pub data Statement : Type 0 where
  line : Level → Bytes → List Item → Statement
  get destroy : Statement
  get_file : Bytes → Statement

unfoldable pub do_statement : Streams → Statement → LogPointer → Outcome (LogPointer × Written)
unfolding log_line log_instance file_instance destroy_log
do_statement st (line level now items) p = log_line st level now items p
do_statement st get p = ok (log_instance p, [])
do_statement st (get_file name) p = ok (file_instance st name p, [])
do_statement st destroy p = destroy_log p >>= λ p'. ok (p', [])

unfoldable pub do_all : Streams → List Statement → LogPointer → Outcome (LogPointer × Written)
unfolding do_statement
do_all st [] p = ok (p, [])
do_all st (s ∷ more) p = do
  (p', first) ← do_statement st s p
  (p'', later) ← do_all st more p'
  ok (p'', first ++ later)

-- The choice of `main` of svoiptunnel/voiptunnel.cpp, by the name of the log file.
unfoldable pub open_log : Streams → Bytes → LogPointer → LogPointer
unfolding log_instance file_instance
open_log st log_file p = if is_empty log_file then log_instance p else file_instance st log_file p
