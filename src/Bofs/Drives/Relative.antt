-- ===== src/Bofs/Drives/Relative.antt =====
-- fs/bofs/dir.c and fs/symphyses.c: a path name without a drive is a walk from the working directory.
use xbook.Prelude.{
  ℕ, ◌<◌, ◌≡◌, refl, ◌∙◌, false, none, some, List, [], ◌∷◌, ◌++◌, ◌==◌, append_assoc, length, arith,
}
use xbook.Bofs.Directory.{same_name}
use xbook.Bofs.Paths.{root, until_colon, path_to_drive}
use xbook.Bofs.Paths.Names.{names_from, names_of, names_from-append}
use xbook.Bofs.Paths.Washing.{resolve_all, render, wash_path-render, resolve_all-append}
use xbook.Bofs.Drives.{
  Drive, get_drive_by_name, from_slash, with_slash, add_root, make_abs_path, get_drive_by_path,
  final_path, change_cwd,
}

-- The name of a drive has neither a colon nor a slash.
pub data IsDriveName : List ℕ → Type 0 where
  name_ends : IsDriveName []
  name_goes :
      (c : ℕ) (name : List ℕ)
      → (c == b':') ≡ false
      → (c == b'/') ≡ false
      → IsDriveName name
      → IsDriveName (c ∷ name)

until_colon-append :
    {name : List ℕ} (rest : List ℕ)
    → IsDriveName name
    → until_colon (name ++ b':' ∷ rest) ≡ some name
unfolding until_colon
until_colon-append rest name_ends = refl
until_colon-append rest (name_goes c name k s ok) = rw k (rw (until_colon-append rest ok) refl)

from_slash-append :
    {name : List ℕ} (rest : List ℕ)
    → IsDriveName name
    → from_slash (name ++ b':' ∷ b'/' ∷ rest) ≡ some (b'/' ∷ rest)
unfolding from_slash
from_slash-append rest name_ends = refl
from_slash-append rest (name_goes c name k s ok) = rw s (from_slash-append rest ok)

-- What stands behind the first slash of the absolute path
abbrev below_root : List ℕ → List ℕ → List ℕ
below_root [] path = path
below_root (c ∷ dir) path = (c ∷ dir) ++ b'/' ∷ path

with_slash-append :
    {name : List ℕ} (dir path : List ℕ)
    → IsDriveName name
    → with_slash (name ++ b':' ∷ b'/' ∷ dir) ++ path ≡ name ++ b':' ∷ b'/' ∷ below_root dir path
unfolding with_slash
with_slash-append {name} [] path ok =
    rw (with_slash, from_slash-append [] ok) (append_assoc name (b':' ∷ b'/' ∷ []) path)
with_slash-append {name} (c ∷ dir) path ok =
    rw (with_slash, from_slash-append (c ∷ dir) ok)
      (append_assoc (name ++ b':' ∷ b'/' ∷ c ∷ dir) root path
        ∙ append_assoc name (b':' ∷ b'/' ∷ c ∷ dir) (b'/' ∷ path))

names_of-below_root :
    (dir path : List ℕ)
    → names_of (b'/' ∷ below_root dir path) ≡ names_of (b'/' ∷ dir) ++ names_of path
unfolding names_from
names_of-below_root [] path = refl
names_of-below_root (c ∷ dir) path = names_from-append [] (b'/' ∷ c ∷ dir) path

-- A name that needs no drive before it: no colon, or nothing in front of the first
make_abs_path-change_cwd :
    (d : Drive) (dir path : List ℕ)
    → IsDriveName d.name
    → path_to_drive path ≡ none
    → same_name path root ≡ false
    → make_abs_path (change_cwd d (b'/' ∷ dir)) path ≡ d.name ++ b':' ∷ b'/' ∷ below_root dir path
unfolding make_abs_path change_cwd add_root
make_abs_path-change_cwd d dir path ok relative inner = rw relative (
    rw inner (
      rw (with_slash-append dir path ok)
        (rw (add_root, from_slash-append (below_root dir path) ok) refl)))

path_to_drive-append :
    {name : List ℕ} (rest : List ℕ)
    → IsDriveName name
    → 0 < length name
    → path_to_drive (name ++ b':' ∷ rest) ≡ some name
unfolding path_to_drive
path_to_drive-append rest name_ends l = absurd (omega (arith, l))
path_to_drive-append rest (name_goes c name k s ok) l =
    rw (path_to_drive, until_colon-append rest (name_goes c name k s ok)) refl

get_drive_by_path-append :
    {name : List ℕ} (rest : List ℕ) (drives : List Drive)
    → IsDriveName name
    → 0 < length name
    → get_drive_by_path (name ++ b':' ∷ rest) drives ≡ get_drive_by_name name drives
unfolding get_drive_by_path
get_drive_by_path-append rest drives ok l =
    rw (get_drive_by_path, path_to_drive-append rest ok l) refl

-- In a working directory that `BOFS_ChangeCWD` stored, a call with a path name that names no drive and
-- is not `/` works on the drive of that directory, if it is in the list of drives still, and on the path
-- that a walk from the working directory along the names of the path name ends in. (A path name that
-- begins with a slash is read from the working directory too.)
pub final_path-relative :
    (d : Drive) (drives : List Drive) (dir path : List ℕ)
    → IsDriveName d.name
    → 0 < length d.name
    → get_drive_by_name d.name drives ≡ some d
    → path_to_drive path ≡ none
    → same_name path root ≡ false
    → final_path (change_cwd d (b'/' ∷ dir)) drives path
      ≡ some (d, render (resolve_all (resolve_all [] (names_of (b'/' ∷ dir))) (names_of path)))
unfolding final_path
final_path-relative d drives dir path ok long here relative inner =
    rw (make_abs_path-change_cwd d dir path ok relative inner) (
      rw (get_drive_by_path-append (b'/' ∷ below_root dir path) drives ok long) (
        rw here (
          rw (from_slash-append (below_root dir path) ok) (
            rw (wash_path-render (b'/' ∷ below_root dir path) refl) (
              rw (names_of-below_root dir path)
                (rw (resolve_all-append [] (names_of (b'/' ∷ dir)) (names_of path)) refl))))))
