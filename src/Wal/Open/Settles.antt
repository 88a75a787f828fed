-- ===== src/Wal/Open/Settles.antt =====
-- What an opening comes to, in terms of the calls that fail.
use hoglet.Prelude.{ℕ, ◌≡◌, refl, Bool, true, false, none, some, List, Result, ok, err, ◌>>=◌}
use hoglet.Wal.Batch.{WalError, IoError, io, writer_locked}
use hoglet.Wal.Codec.{Codec}
use hoglet.Wal.Scan.{SegmentScan, scan_segment}
use hoglet.Wal.Writer.{Outcome}
use hoglet.Wal.Open.{
  ScanIo, OpenIo, LockAnswer, acquired, would_block, lock_error, answered, acquire_writer_lock,
  repair, scan_file,
}

-- A call of one scan that failed with this error.
pub data ScanFailed (answers : ScanIo) (e : IoError) : Type 0 where
  open_file : answers.open_file ≡ some e → ScanFailed answers e
  read : answers.read ≡ some e → ScanFailed answers e
  set_len : answers.set_len ≡ some e → ScanFailed answers e
  sync_all : answers.sync_all ≡ some e → ScanFailed answers e

-- An error that tells of a call that failed, or of another writer that holds the lock.
pub data Refused (answers : OpenIo) : WalError → Type 0 where
  create_directory : {e : IoError} → answers.create_directory ≡ some e → Refused answers (io e)
  lock_file : {e : IoError} → answers.lock_file ≡ some e → Refused answers (io e)
  held : answers.try_lock ≡ would_block → Refused answers writer_locked
  try_lock : {e : IoError} → answers.try_lock ≡ lock_error e → Refused answers (io e)
  list : {e : IoError} → answers.list ≡ some e → Refused answers (io e)
  scan : {e : IoError} (s : ℕ) → ScanFailed (answers.scans s) e → Refused answers (io e)
  reopen : {e : IoError} → answers.reopen ≡ some e → Refused answers (io e)
  seek : {e : IoError} → answers.seek ≡ some e → Refused answers (io e)

-- The computation succeeds with a result of which `P` holds, unless a call was refused.
pub data Settles (answers : OpenIo) {A : Type 0} (P : A → Type 0) : Result A WalError → Type 0 where
  refused : (e : WalError) → Refused answers e → Settles answers P (err e)
  settled : (a : A) → P a → Settles answers P (ok a)

module _ {answers : OpenIo} where
  pub >>=-Settles :
      {A B : Type 0} {P : A → Type 0} {Q : B → Type 0} (r : Result A WalError)
      (f : A → Result B WalError)
      → Settles answers P r
      → ((a : A) → P a → Settles answers Q (f a))
      → Settles answers Q (r >>= f)
  >>=-Settles (err e) f (refused e' h) k = refused e h
  >>=-Settles (ok a) f (settled a' h) k = k a h

  pub answered-Settles :
      (o : Outcome)
      → ((e : IoError) → o ≡ some e → Refused answers (io e))
      → Settles answers (λ _. Unit {0}) (answered o)
  answered-Settles none h = settled tt tt
  answered-Settles (some e) h = refused (io e) (h e refl)

  pub acquire_writer_lock-Settles :
      (file : Outcome) (lock : LockAnswer)
      → answers.lock_file ≡ file
      → answers.try_lock ≡ lock
      → Settles answers (λ _. Unit {0}) (acquire_writer_lock file lock)
  acquire_writer_lock-Settles (some e) lock h k = refused (io e) (lock_file h)
  acquire_writer_lock-Settles none acquired h k = settled tt tt
  acquire_writer_lock-Settles none would_block h k = refused writer_locked (held k)
  acquire_writer_lock-Settles none (lock_error e) h k = refused (io e) (try_lock k)

  repair-Settles :
      (s : ℕ) (truncated : Bool)
      → Settles answers (λ _. Unit {0}) (repair (answers.scans s) truncated)
  repair-Settles s false = settled tt tt
  repair-Settles s true =
      >>=-Settles (answered (answers.scans s).set_len) _
        (answered-Settles (answers.scans s).set_len (λ e h. scan s (set_len h)))
        (λ _ _. answered-Settles (answers.scans s).sync_all (λ e h. scan s (sync_all h)))

  -- A scan that ends well when its calls succeed.
  pub scan_file-Settles :
      (c : Codec) (s : ℕ) (file : List ℕ) (m : ℕ) (repairs : Bool) (result : SegmentScan)
      → scan_segment c file s m repairs ≡ ok result
      → Settles answers (λ r. r ≡ result) (scan_file c (answers.scans s) file s m repairs)
  unfolding scan_file
  scan_file-Settles c s file m repairs result e =
      >>=-Settles (answered (answers.scans s).open_file) _
        (answered-Settles (answers.scans s).open_file (λ e h. scan s (open_file h)))
        λ _ _.
          >>=-Settles (answered (answers.scans s).read) _
            (answered-Settles (answers.scans s).read (λ e h. scan s (read h)))
            λ _ _. rw e (
              >>=-Settles (repair (answers.scans s) result.truncated_tail) _
                (repair-Settles s result.truncated_tail) λ _ _. settled result refl)

pub Settles-map :
    {answers : OpenIo} {A : Type 0} {P Q : A → Type 0} {r : Result A WalError}
    → ((a : A) → P a → Q a)
    → Settles answers P r
    → Settles answers Q r
Settles-map f (refused e h) = refused e h
Settles-map f (settled a p) = settled a (f a p)
