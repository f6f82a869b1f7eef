-- ===== src/Bofs/Drives.antt =====
-- fs/bofs/drive.c: the list of drives; fs/bofs/dir.c and fs/symphyses.c: how a call comes from a path
-- name and the directory that its task works in to a drive and a path there.
pub mod Relative
mod Tests
use xbook.Prelude.{
  ℕ, Bool, true, false, Option, none, some, List, [], ◌∷◌, ◌++◌, ◌==◌, if◌then◌else◌,
}
use xbook.Bofs.Directory.{same_name}
use xbook.Bofs.Paths.{root, path_to_drive, wash_path}

pub record Drive : Type 0 where
  name : List ℕ
  super_block : ℕ
  block_device : ℕ

unfoldable pub get_drive_by_name : List ℕ → List Drive → Option Drive
get_drive_by_name name [] = none
get_drive_by_name name (d ∷ drives) =
    let rest = get_drive_by_name name drives in if same_name d.name name then some d else rest

-- `kmalloc` gives the memory or does not.
unfoldable pub add_drive : Bool → Drive → List Drive → Option (List Drive)
add_drive granted d drives = elim (get_drive_by_name d.name drives) [
  | some taken ↦ none
  | none ↦ if granted then some (drives ++ d ∷ []) else none
]

-- The first drive of the name goes.
unfoldable pub del_drive : List ℕ → List Drive → Option (List Drive)
del_drive name [] = none
del_drive name (d ∷ drives) =
    let rest = del_drive name drives in
    if same_name d.name name
    then some drives
    else elim rest [ none ↦ none | some left ↦ some (d ∷ left) ]

-- `strchr(path, '/')`
unfoldable pub from_slash : List ℕ → Option (List ℕ)
from_slash [] = none
from_slash (c ∷ path) = let rest = from_slash path in if c == b'/' then some (c ∷ path) else rest

-- `q[1] = '\0'` behind the first slash, if there is one
unfoldable pub through_slash : List ℕ → List ℕ
through_slash [] = []
through_slash (c ∷ path) = let rest = through_slash path in if c == b'/' then root else c ∷ rest

-- A slash behind the working directory, unless it is the root of its drive
unfoldable pub with_slash : List ℕ → List ℕ
with_slash cwd = elim (from_slash cwd) [
  | none ↦ cwd
  | some p ↦ if same_name p root then cwd else cwd ++ root
]

unfoldable pub add_root : List ℕ → List ℕ
add_root path = elim (from_slash path) [ none ↦ path ++ root | some p ↦ path ]

-- What `BOFS_MakeAbsPath` starts with
abbrev start_path : List ℕ → Option (List ℕ) → List ℕ
start_path cwd none = with_slash cwd
start_path cwd (some drive) = []

-- `BOFS_MakeAbsPath` with an empty `abspath`
unfoldable pub make_abs_path : List ℕ → List ℕ → List ℕ
make_abs_path cwd path =
    let base = start_path cwd (path_to_drive path) in
    if same_name path root then through_slash base else add_root (base ++ path)

unfoldable pub get_drive_by_path : List ℕ → List Drive → Option Drive
get_drive_by_path path drives = elim (path_to_drive path) [
  | none ↦ none
  | some name ↦ get_drive_by_name name drives
]

infixl 5 ◌>>=◌
abbrev ◌>>=◌ {ℓ κ} : {A : Type ℓ} {B : Type κ} → Option A → (A → Option B) → Option B
none >>= k = none
some a >>= k = k a

-- The beginning that the calls of fs/symphyses.c share, up to the call on the drive and `finalPath`;
-- `none` if there is no drive. (`strchr` would find no slash only in a working directory without one.)
unfoldable pub final_path : List ℕ → List Drive → List ℕ → Option (Drive × List ℕ)
final_path cwd drives path =
    let absolute = make_abs_path cwd path in
    do
      d ← get_drive_by_path absolute drives
      below ← from_slash absolute
      washed ← wash_path below
      some (d, washed)

-- What `BOFS_ChangeCWD` stores
unfoldable pub change_cwd : Drive → List ℕ → List ℕ
change_cwd d path = d.name ++ b':' ∷ path
