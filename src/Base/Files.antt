-- ===== src/Base/Files.antt =====
-- The files that a server sees.
use Prim.Native.Nat.{ℕ}
use mathlib.Core.Path.{◌≡◌, refl}
use mathlib.Core.Logic.{inl, inr}
use mathlib.Core.Option.{Option, some}
use mathlib.Core.List.{List}
use ecen_602_network_program.Base.Tests.{if◌then◌else◌, Bool-cases}
use ecen_602_network_program.Base.Bytes.{same_string, same_string_refl}

-- By name; a file that cannot be opened for reading is none.
abbrev pub Files : Type 0
Files = List ℕ → Option (List ℕ)

-- The files after one of them was written (`some`) or removed (`none`).
unfoldable pub update : Files → List ℕ → Option (List ℕ) → Files
unfolding same_string
update files name content other = if same_string name other then content else files other

pub update-same :
    (files : Files) (name : List ℕ) (content : Option (List ℕ))
    → update files name content name ≡ content
unfolding update
update-same files name content = rw (same_string_refl name) refl

-- A file that is there is there behind a write.
pub update-keeps :
    (files : Files) (name new other content : List ℕ)
    → files other ≡ some content
    → (content' : List ℕ) × (update files name (some new) other ≡ some content')
unfolding update
update-keeps files name new other content h = elim (Bool-cases (same_string name other)) [
  | inl here ↦ (new, rw here refl)
  | inr further ↦ (content, rw further h)
]
