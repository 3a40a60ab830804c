-- ===== src/Archive/Pack/Volume.antt =====
-- The volume that PackNext of internal/archive/packer.go seals.
use panpack.Base.{ℕ, suc, ◌≤◌, true, ◌≡◌, ◌↔◌, List, [], ◌∷◌}
use panpack.Store.{Cursor}
use panpack.Archive.Pack.{Line, Sealed}
use panpack.Archive.Pack.Between.{Covers, Reaches}

-- Where the manifest ends that has these lines from offset `o` on.
abbrev pub end_of : ℕ → List Line → ℕ
end_of o [] = o
end_of o (l ∷ ls) = end_of l.next ls

-- What a sealed volume promises: its entries are what lies between the cursors, the cursor behind it
-- stands behind the last line that is passed, and it is at the end exactly when no line is left.
pub record IsVolume (lines : List Line) (cursor : Cursor) (target : ℕ) (v : Sealed) : Type 0 where
  pub covers : Covers lines cursor.file_offset v.items v.left v.cursor_after.file_offset
  pub reached : Reaches lines cursor.manifest_offset v.left v.cursor_after.manifest_offset
  pub at_end : (v.cursor_after.is_done ≡ true) ↔ (v.left ≡ [])
  pub numbered : v.index ≡ cursor.next_volume
  pub advanced : v.cursor_after.next_volume ≡ suc v.index
  pub bounded : v.size ≤ target
