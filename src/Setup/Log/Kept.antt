-- ===== src/Setup/Log/Kept.antt =====
-- The first object of svoiptunnel/log.cpp is kept: where the log goes is decided by what makes it.
use mathlib.Core.Path.{subst}
use svoiptunnel.Base.{
  All, Bool, Bool-cases, Bytes, List, Outcome, [], false, fails, if◌then◌else◌, inl, inr, is_empty,
  ok, refl, returns, true, ◌++◌, ◌>>=◌, ◌∙◌, ◌∷◌, ◌≡◌, ◌≢◌, ◌&&◌,
}
use svoiptunnel.Setup.Log.{
  Item, Log, LogPointer, Statement, Stream, Streams, Written, console, deleted, destroy, do_all,
  do_statement, file, get, get_file, level_text, line, log_at, log_line, new_log, new_log_file,
  open_log, put, put_all, text_item, manipulator, unsigned_item, int_item, unset, write,
  destroy_log, file_instance, log_instance,
}

-- All of it goes to a stream.
abbrev pub GoesTo : Stream → Written → Type 0
GoesTo s w = All (λ x. x.0 ≡ s) w

-- Anything but `Log::destroy`.
abbrev pub IsKeeping : Statement → Type 0
IsKeeping destroy = ⊥
IsKeeping s = Unit

GoesTo-append : (s : Stream) (a b : Written) → GoesTo s a → GoesTo s b → GoesTo s (a ++ b)
GoesTo-append s [] b h k = k
GoesTo-append s (x ∷ a) b h k = (h.0, GoesTo-append s a b h.1 k)

write-GoesTo : (l : Log) (bytes : Bytes) → GoesTo l.stream (write l bytes)
unfolding write
write-GoesTo l bytes = elim (Bool-cases l.is_good) [
  | inl good ↦ rw good (refl, tt)
  | inr bad ↦ rw bad tt
]

put-GoesTo : (st : Streams) (i : Item) (l : Log) → GoesTo l.stream (put st i l)
unfolding put
put-GoesTo st (text_item s) l = write-GoesTo l s
put-GoesTo st (manipulator s) l = write-GoesTo l s
put-GoesTo st (unsigned_item i) l = write-GoesTo l (st.show_unsigned i)
put-GoesTo st (int_item i) l = write-GoesTo l (st.show_int i)

put_all-GoesTo : (st : Streams) (is : List Item) (l : Log) → GoesTo l.stream (put_all st is l)
unfolding put_all
put_all-GoesTo st [] l = tt
put_all-GoesTo st (i ∷ is) l =
    GoesTo-append l.stream (put st i l) (put_all st is l) (put-GoesTo st i l)
      (put_all-GoesTo st is l)

-- A statement leaves the object where it is.
step-GoesTo :
    (st : Streams) (s : Statement) (l : Log)
    → IsKeeping s
    → (w : Written) × (do_statement st s (log_at l) ≡ ok (log_at l, w)) × GoesTo l.stream w
unfolding do_statement log_line log_instance file_instance
step-GoesTo st (line level now items) l h =
    let head = write l now ++ write l (level_text level) in
    let in_head =
      GoesTo-append l.stream (write l now) (write l (level_text level)) (write-GoesTo l now)
        (write-GoesTo l (level_text level)) in
    (
      head ++ put_all st items l,
      refl,
      GoesTo-append l.stream head (put_all st items l) in_head (put_all-GoesTo st items l),
    )
step-GoesTo st get l h = ([], refl, tt)
step-GoesTo st (get_file name) l h = ([], refl, tt)
step-GoesTo st destroy l h = absurd h

kept :
    (st : Streams) (ss : List Statement) (l : Log)
    → All IsKeeping ss
    → (w : Written) × (do_all st ss (log_at l) ≡ ok (log_at l, w)) × GoesTo l.stream w
unfolding do_all
kept st [] l h = ([], refl, tt)
kept st (s ∷ ss) l h =
    let (first, e, there) = step-GoesTo st s l h.0 in
    let (later, f, more) = kept st ss l h.1 in
    (first ++ later, rw (e, f) refl, GoesTo-append l.stream first later there more)

-- Where the log of `main` goes, by the name of the log file.
abbrev pub stream_of : Bytes → LogPointer → Stream
stream_of log_file (log_at l) = l.stream
stream_of log_file p = if is_empty log_file then console else file log_file

opened :
    (st : Streams) (log_file : Bytes) (p : LogPointer)
    → p ≢ deleted
    → (l : Log) × (open_log st log_file p ≡ log_at l) × (l.stream ≡ stream_of log_file p)
unfolding open_log file_instance log_instance new_log_file
opened st log_file unset h = elim (Bool-cases (is_empty log_file)) [
  | inl none_given ↦ (new_log, rw none_given refl, rw none_given refl)
  | inr given ↦ (new_log_file st log_file, rw given refl, rw given refl)
]
opened st log_file deleted h = absurd (h refl)
opened st log_file (log_at l) h = elim (Bool-cases (is_empty log_file)) [
  | inl none_given ↦ (l, rw none_given refl, refl)
  | inr given ↦ (l, rw given refl, refl)
]

-- Behind the choice of the log, with no log deleted, whatever the program does but to delete it returns, the
-- object stays the same, and all that is written goes to one stream: that of the object that was there
-- before the choice, else the log file if one is named, else the console.
pub open_log-GoesTo :
    (st : Streams) (log_file : Bytes) (p : LogPointer) (ss : List Statement)
    → p ≢ deleted
    → All IsKeeping ss
    → (w : Written) × (do_all st ss (open_log st log_file p) ≡ ok (open_log st log_file p, w))
      × GoesTo (stream_of log_file p) w
open_log-GoesTo st log_file p ss h k =
    let (l, e, f) = opened st log_file p h in
    let (w, g, there) = kept st ss l k in (w, rw e g, subst (λ s. GoesTo s w) f there)

-- Whether a statement only asks for the object.
abbrev pub asks : Statement → Bool
asks get = true
asks (get_file name) = true
asks s = false

abbrev pub all_ask : List Statement → Bool
all_ask [] = true
all_ask (s ∷ ss) = asks s && all_ask ss

abbrev behind : Written → LogPointer × Written → Outcome (LogPointer × Written)
behind first x = ok (x.0, first ++ x.1)

returns-then :
    (m : Outcome (LogPointer × Written)) (first : Written)
    → returns (m >>= behind first) ≡ returns m
returns-then (ok x) first = refl
returns-then (fails why) first = refl

deleted-returns : (st : Streams) (ss : List Statement) → returns (do_all st ss deleted) ≡ all_ask ss
unfolding do_all do_statement log_line log_instance file_instance destroy_log
deleted-returns st [] = refl
deleted-returns st (line level now items ∷ ss) = refl
deleted-returns st (destroy ∷ ss) = refl
deleted-returns st (get ∷ ss) = returns-then (do_all st ss deleted) [] ∙ deleted-returns st ss
deleted-returns st (get_file name ∷ ss) =
    returns-then (do_all st ss deleted) [] ∙ deleted-returns st ss

-- Behind `Log::destroy`, the statements return exactly if they all just ask for the object: the first that
-- logs something, or destroys the log again, uses the object that has been deleted.
pub destroyed-returns :
    (st : Streams) (l : Log) (ss : List Statement)
    → returns (do_all st (destroy ∷ ss) (log_at l)) ≡ all_ask ss
unfolding do_all do_statement destroy_log
destroyed-returns st l ss = returns-then (do_all st ss deleted) [] ∙ deleted-returns st ss
