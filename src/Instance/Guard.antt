-- ===== src/Instance/Guard.antt =====
-- `acquireInstanceLock`, `publishLock`, `refuseLiveEncoder`, `lockReleaser` and `assertSingleInstance` of
-- src/server/single_instance_guard.js, and `withStaleBreakMutex` and `breakStaleLock` of
-- src/server/stale_lock_breaker.js, cut at each operation on a file that another process can see. A
-- process is a number, which is also its random token. The mount has hard links, so a record is never
-- seen half-written. The record that a process publishes is its pid, its command line, which it can
-- read, and its token, so that one token is one text; records of older versions are left out.
use xchain_encoder.Base.{
  ℕ, ◌+◌, Bool, false, not, ◌&&◌, Option, none, some, ltb, leb, ◌==◌, if◌then◌else◌,
}

abbrev pub break_passes : ℕ
break_passes = 5

-- The lock file holds the token of the record in it; the mutex file a token.
pub record Files : Type 0 where
  pub lock : Option ℕ
  pub mutex : Option ℕ

-- Where a process stands. `linking`, `linked`, `occupied`, `breaking`, `verified` and `broken` are
-- inside the mutex; `contended` has met a record; `stale` has judged what it read; `verified` has read
-- it again, and unlinks next; `releasing` has read its own token, and unlinks next.
pub data Pc : Type 0 where
  publishing linking occupied contended broken : ℕ → Pc
  stale breaking : Option ℕ → ℕ → Pc
  verified : ℕ → ℕ → Pc
  linked owner releasing released failed dead : Pc

-- What a process sees of the others, and what it chooses: whether it waits on for a busy mutex, and
-- whether an owner shuts down.
pub record Probe : Type 0 where
  pub is_alive : ℕ → Bool
  pub describe : ℕ → Option ℕ
  pub waits : Bool
  pub shuts_down : Bool

-- The pid and the command line of each process.
pub record Identity : Type 0 where
  pub pid : ℕ → ℕ
  pub cmd : ℕ → ℕ

-- A live pid is a reused number exactly if its command line is not the one that took the lock.
unfoldable pub is_reused : ℕ → Option ℕ → Bool
is_reused cmd none = false
is_reused cmd (some live) = not (live == cmd)

-- Whether the holder of a record is a live encoder other than this process.
unfoldable pub refuses_holder : Identity → Probe → ℕ → ℕ → Bool
unfolding is_reused
refuses_holder ids probe self holder =
    let pid = ids.pid holder in
    ((ltb 0 pid && probe.is_alive pid) && not (pid == ids.pid self))
    && not (is_reused (ids.cmd holder) (probe.describe pid))

-- The mutex file is removed where it holds this process's token.
unfoldable pub release_break_mutex : ℕ → Option ℕ → Option ℕ
release_break_mutex self none = none
release_break_mutex self (some token) = if token == self then none else some token

unfoldable pub same_text : Option ℕ → Option ℕ → Bool
same_text (some a) (some b) = a == b
same_text _ _ = false

-- A record that is read: `none` where there is no file, which is nobody's.
unfoldable pub judge_holder : Identity → Probe → ℕ → ℕ → Option ℕ → Pc
unfolding refuses_holder
judge_holder ids probe self pass none = stale none pass
judge_holder ids probe self pass (some holder) =
    if refuses_holder ids probe self holder then failed else stale (some holder) pass

-- `acquireBreakMutex`: the file is created where it is not there.
unfoldable pub acquire_break_mutex : ℕ → Probe → Files → Option ℕ → Pc → Pc → Files × Pc
acquire_break_mutex self probe files none inside outside =
    (record files { mutex = some self }, inside)
acquire_break_mutex self probe files (some token) inside outside =
    (files, if probe.waits then outside else failed)

-- `linkSync`: the lock file is created where it is not there.
unfoldable pub publish_lock : ℕ → ℕ → Files → Option ℕ → Files × Pc
publish_lock self pass files none = (record files { lock = some self }, linked)
publish_lock self pass files (some holder) = (files, occupied pass)

abbrev pub freed : ℕ → Files → Files
freed self files = record files { mutex = release_break_mutex self (files.mutex) }

abbrev pub unlinked : Files → Files
unlinked files = record files { lock = none }

-- The second read inside the mutex.
unfoldable pub verify_stale : Files → ℕ → Option ℕ → Pc
unfolding same_text
verify_stale files pass none = broken pass
verify_stale files pass (some text) =
    if same_text (files.lock) (some text) then verified text pass else broken pass

-- The next step of process `self`.
unfoldable pub advance : Identity → Probe → ℕ → Files → Pc → Files × Pc
unfolding acquire_break_mutex publish_lock release_break_mutex judge_holder verify_stale same_text
advance ids probe self files (publishing pass) =
    acquire_break_mutex self probe files (files.mutex) (linking pass) (publishing pass)
advance ids probe self files (linking pass) = publish_lock self pass files (files.lock)
advance ids probe self files linked = (freed self files, owner)
advance ids probe self files (occupied pass) = (freed self files, contended pass)
advance ids probe self files (contended pass) =
    (files, judge_holder ids probe self pass (files.lock))
advance ids probe self files (stale text pass) =
    acquire_break_mutex self probe files (files.mutex) (breaking text pass) (stale text pass)
advance ids probe self files (breaking text pass) = (files, verify_stale files pass text)
advance ids probe self files (verified text pass) = (unlinked files, broken pass)
advance ids probe self files (broken pass) =
    (freed self files, if leb break_passes pass then failed else publishing (pass + 1))
advance ids probe self files owner = (
  files,
  if not (probe.shuts_down)
      then owner
      else if same_text (files.lock) (some self)
      then releasing
      else released,
)
advance ids probe self files releasing = (unlinked files, released)
advance ids probe self files released = (files, released)
advance ids probe self files failed = (files, failed)
advance ids probe self files dead = (files, dead)
