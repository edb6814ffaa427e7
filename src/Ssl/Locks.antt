-- ===== src/Ssl/Locks.antt =====
-- The mutexes of svoiptunnel/sslbase.cpp, which OpenSSL calls for, as it is built where WIN32 is not
-- defined. A mutex `M` and what is done to it belong to the system.
use svoiptunnel.Base.{
  ℕ, Bool, List, Option, Outcome, buffer_overflow, fails, get_elem?, if◌then◌else◌, none,
  null_pointer, ok, replicate, set, some, ◌>>=◌,
}

-- `pthread_mutex_init`; and `pthread_mutex_lock` and `pthread_mutex_unlock` of a mutex by a thread, none
-- where the thread has to wait.
pub record Mutexes (M : Type 0) : Type 0 where
  pub fresh : M
  pub do_lock : ℕ → M → Outcome (Option M)
  pub do_unlock : ℕ → M → Outcome (Option M)

-- Whether CRYPTO_LOCK is set in the mode.
pub data LockMode : Type 0 where
  lock unlock : LockMode

module _ {M : Type 0} (mutexes : Mutexes M) where
  -- `_mutex_buf`
  abbrev pub MutexBuf : Type 0
  MutexBuf = Option (List M)

  -- With `CRYPTO_num_locks`, and whether `malloc` succeeds; the number is what the function returns.
  unfoldable pub thread_setup : ℕ → Bool → MutexBuf × ℕ
  thread_setup count can_allocate =
      if can_allocate then (some (replicate count mutexes.fresh), 1) else (none, 0)

  unfoldable pub thread_cleanup : MutexBuf → MutexBuf × ℕ
  thread_cleanup none = (none, 0)
  thread_cleanup (some locks) = (none, 1)

  abbrev put_mutex : List M → ℕ → Option M → Option MutexBuf
  put_mutex locks n none = none
  put_mutex locks n (some m) = some (some (set locks n m))

  abbrev act : LockMode → ℕ → M → Outcome (Option M)
  act lock thread m = mutexes.do_lock thread m
  act unlock thread m = mutexes.do_unlock thread m

  -- A call by a thread, for the mutex at an index: none where the thread has to wait.
  unfoldable pub locking_function : LockMode → ℕ → ℕ → MutexBuf → Outcome (Option MutexBuf)
  locking_function mode thread n none = fails null_pointer
  locking_function mode thread n (some locks) =
      elim (get_elem? locks n) as (λ _. Outcome (Option MutexBuf)) [
        | none ↦ fails buffer_overflow
        | some m ↦ act mode thread m >>= λ changed. ok (put_mutex locks n changed)
      ]
