-- ===== src/World.antt =====
-- The machine that the program runs on: its files and its processes, and which system calls it
-- refuses. Directories are made or refused and not recorded; a refused call changes nothing.
pub mod Steps
pub mod Frame
use dev_connect.Prelude.{
  ℕ, Bool, true, false, not, ◌&&◌, ◌||◌, Option, none, some, ◌≡◌, refl, arith, if◌then◌else◌, ◌==◌,
  [], ◌∷◌, ◌++◌,
}
use dev_connect.Text.{Text, equal, equal_iff, has_prefix}

pub record File : Type 0 where
  pub content : Text
  pub mode : ℕ

pub data Call : Type 0 where
  to_read to_write to_chmod to_remove to_remove_all to_mkdir to_create to_close to_signal to_stat :
      Call

pub record World : Type 0 where
  pub file : Text → Option File
  pub refuses : Call → Text → Bool
  pub alive : ℕ → Bool

-- The files with one path set anew.
unfoldable pub update : (Text → Option File) → Text → Option File → Text → Option File
update files p f q = if equal p q then f else files q

-- `os.ReadFile`
pub data ReadResult : Type 0 where
  contents : Text → ReadResult
  missing : ReadResult
  failed : ReadResult

abbrev pub of_file : Option File → ReadResult
of_file none = missing
of_file (some f) = contents f.content

unfoldable pub read_file : World → Text → ReadResult
read_file w p = if w.refuses Call.to_read p then failed else of_file (w.file p)

abbrev pub mode_of : Option File → ℕ → ℕ
mode_of none mode = mode
mode_of (some f) mode = f.mode

-- `os.WriteFile`: a file that exists keeps its mode. `none` is an error.
unfoldable pub write_file : World → Text → Text → ℕ → Option World
unfolding update
write_file w p content mode =
    if w.refuses Call.to_write p
    then none
    else some (record w {
      file = update w.file p (some (record { content = content; mode = mode_of (w.file p) mode }));
    })

-- `os.Chmod`; it fails too where there is no file.
unfoldable pub chmod : World → Text → ℕ → Option World
unfolding update
chmod w p mode = if w.refuses Call.to_chmod p then none else elim (w.file p) [
  | none ↦ none
  | some f ↦ some (record w { file = update w.file p (some (record f { mode = mode })) })
]

-- `os.MkdirAll`
unfoldable pub mkdir_all : World → Text → Option World
mkdir_all w p = if w.refuses Call.to_mkdir p then none else some w

-- `os.Remove`, where the caller takes a missing file for removed. `none` is another error.
unfoldable pub remove : World → Text → Option World
unfolding update
remove w p =
    if w.refuses Call.to_remove p then none else some (record w { file = update w.file p none })

-- `os.RemoveAll`
unfoldable pub remove_all : World → Text → Option World
unfolding equal has_prefix
remove_all w p =
    if w.refuses Call.to_remove_all p
    then none
    else some (record w {
      file = λ q. if equal q p || has_prefix q (p ++ b'/' ∷ []) then none else w.file q;
    })

-- `os.OpenFile` with `O_CREATE|O_EXCL`
pub data CreateResult : Type 0 where
  created : World → CreateResult
  exists : CreateResult
  not_created : CreateResult

unfoldable pub create_exclusive : World → Text → ℕ → CreateResult
unfolding update
create_exclusive w p mode = elim (w.file p) [
  | some f ↦ exists
  | none ↦
      if w.refuses Call.to_create p
      then not_created
      else created
          (record w { file = update w.file p (some (record { content = []; mode = mode })) })
]

-- `os.OpenFile` with `O_CREATE|O_APPEND|O_WRONLY`: a file that exists is left as it is.
unfoldable pub open_append : World → Text → ℕ → Option World
unfolding update
open_append w p mode = if w.refuses Call.to_write p then none else elim (w.file p) [
  | some f ↦ some w
  | none ↦ some (record w { file = update w.file p (some (record { content = []; mode = mode })) })
]

-- `syscall.Kill` with SIGKILL, of a process or of the group that it leads; the name is the number
-- that the system call is given. There is nothing to signal where the process has ended.
unfoldable pub kill : World → Text → ℕ → Option World
kill w name pid =
    if w.refuses Call.to_signal name || not (w.alive pid)
    then none
    else some (record w { alive = λ q. if q == pid then false else w.alive q })

pub equal_refl : (a : Text) → equal a a ≡ true
equal_refl a = (equal_iff a a).1 refl

pub update_self : (files : Text → Option File) (p : Text) (f : Option File) → update files p f p ≡ f
unfolding update
update_self files p f = rw (equal_refl p)
