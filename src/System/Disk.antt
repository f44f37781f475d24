-- ===== src/System/Disk.antt =====
-- The files that the tests of the source make before they call it.
use teeproxyd.Base.{
  ℕ, String, Option, none, some, List, [], ◌∷◌, is_some, str_eq, codes, if◌then◌else◌,
}
use teeproxyd.System.{Env, PathBuf, display, join, Result, ok, err}

abbrev pub missing : String
missing = "No such file or directory (os error 2)"

-- Files and their lengths.
abbrev pub Disk : Type 0
Disk = List (PathBuf × ℕ)

abbrev len_of : Disk → PathBuf → Option ℕ
len_of [] p = none
len_of ((q, len) ∷ disk) p = if str_eq (display q) (display p) then some len else len_of disk p

abbrev len_or_missing : Option ℕ → Result ℕ
len_or_missing none = err missing
len_or_missing (some len) = ok len

-- These files and no others.
abbrev pub with_files : Disk → Env → Env
with_files disk env = record env {
  exists_at = λ p t. is_some (len_of disk p);
  len_at = λ p t. len_or_missing (len_of disk p);
}

-- A file of that length under each of the names.
abbrev pub files_of : PathBuf → ℕ → List String → Disk
files_of dir len [] = []
files_of dir len (name ∷ names) = (join dir name, len) ∷ files_of dir len names

-- This file, with this text, and no other.
abbrev pub with_text : PathBuf → String → Env → Env
with_text path s env = record env {
  bytes_at = λ p t. if str_eq (display path) (display p) then ok (codes s) else err missing;
}
