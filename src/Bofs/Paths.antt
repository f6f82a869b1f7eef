-- ===== src/Bofs/Paths.antt =====
-- fs/bofs/dir.c: path names. A string is its characters up to the 0, and a pointer into a path is the
-- rest of the path; the buffers for names and paths are taken to be large enough:
-- a name of 250 characters or more overruns the one that the code has.
pub mod Names
pub mod Washing
pub mod Washed
mod Tests
use xbook.Prelude.{
  ℕ, zero, suc, ◌+◌, Bool, true, false, not, ◌&&◌, ◌||◌, Option, none, some, List, [], ◌∷◌, ◌++◌,
  ◌==◌, if◌then◌else◌, length,
}
use xbook.Bofs.Directory.{same_name}

-- `while (*(++pathname) == '/')`
unfoldable pub skip_slashes : List ℕ → List ℕ
skip_slashes [] = []
skip_slashes (c ∷ path) = if c == b'/' then skip_slashes path else c ∷ path

-- The name up to the next `/`, and the rest of the path from there
unfoldable pub take_name : List ℕ → List ℕ × List ℕ
take_name [] = ([], [])
take_name (c ∷ path) =
    let r = take_name path in if c == b'/' then ([], c ∷ path) else (c ∷ r.0, r.1)

-- At the end of the path the result is the null pointer.
abbrev pub or_null : List ℕ × List ℕ → List ℕ × Option (List ℕ)
or_null (name, []) = (name, none)
or_null (name, c ∷ rest) = (name, some (c ∷ rest))

unfoldable pub parse_path_afterward : List ℕ → List ℕ × Option (List ℕ)
parse_path_afterward path = or_null (take_name (skip_slashes path))

-- What stands before the last `/`: `strrchr` finds none in a path without one.
unfoldable pub before_last : List ℕ → Option (List ℕ)
before_last [] = none
before_last (c ∷ path) = elim (before_last path) [
  | some p ↦ some (c ∷ p)
  | none ↦ if c == b'/' then some [] else none
]

abbrev pub dot : List ℕ
dot = b'.' ∷ []

abbrev pub dot_dot : List ℕ
dot_dot = b'.' ∷ b'.' ∷ []

abbrev pub root : List ℕ
root = b'/' ∷ []

-- `*slashPtr = 0`, or `*(slashPtr + 1) = 0` where that is the first character
abbrev pub go_up : List ℕ → Option (List ℕ) → List ℕ
go_up path none = path
go_up path (some []) = root
go_up path (some (c ∷ p)) = c ∷ p

-- A round of the loop of `BOFS_WashPath`
unfoldable pub wash_name : List ℕ → List ℕ → List ℕ
wash_name path name =
    if same_name dot_dot name
    then go_up path (before_last path)
    else if same_name dot name
    then path
    else (if same_name path root then path else path ++ root) ++ name

-- The loop, a round for each name; `none` if the fuel does not suffice
unfoldable pub wash_loop : ℕ → List ℕ → List ℕ × Option (List ℕ) → Option (List ℕ)
wash_loop zero path parsed = none
wash_loop (suc fuel) path ([], sub) = some path
wash_loop (suc fuel) path (c ∷ name, none) = some (wash_name path (c ∷ name))
wash_loop (suc fuel) path (c ∷ name, some sub) =
    wash_loop fuel (wash_name path (c ∷ name)) (parse_path_afterward sub)

-- The assertion that `BOFS_WashPath` begins with
abbrev pub starts_at_root : List ℕ → Bool
starts_at_root [] = false
starts_at_root (c ∷ path) = c == b'/'

-- `none` also where the assertion stops the kernel. A path of only slashes is the root, which the loop
-- leaves it at too.
unfoldable pub wash_path : List ℕ → Option (List ℕ)
wash_path path =
    let washed = wash_loop (length path + 1) root (parse_path_afterward path) in
    if starts_at_root path then washed else none

-- `strchr(p, ':')` and `strmet(p, namebuf, ':')`
unfoldable pub until_colon : List ℕ → Option (List ℕ)
until_colon [] = none
until_colon (c ∷ path) =
    if c == b':'
    then some []
    else elim (until_colon path) [ none ↦ none | some drive ↦ some (c ∷ drive) ]

-- `BOFS_PathToDrive`; the drive is not empty.
unfoldable pub path_to_drive : List ℕ → Option (List ℕ)
path_to_drive path = elim (until_colon path) [
  | none ↦ none
  | some [] ↦ none
  | some (c ∷ drive) ↦ some (c ∷ drive)
]
