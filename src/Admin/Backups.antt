-- ===== src/Admin/Backups.antt =====
-- localgateway/endpoints/admin.py: the list of the backups, and the restoring of one.
pub mod Undo
use local_gateway.Prelude.{
  ℤ, pos, negsuc, nat_eq, int_eq, Text, text_eq, ℕ, zero, suc, ◌+◌, Bool, true, false, Option, none,
  some, List, [], ◌∷◌, arith,
}
use local_gateway.Config.{GatewayConfig}
use local_gateway.Config.Files.{
  File, Disk, Loaded, backup_keep, rotate_backups, put, reload_config, Parsed, parsed, unreadable,
  crashed,
}

-- One entry of the list: slot -1 is the file itself.
pub record Listed : Type 0 where
  pub slot : ℤ
  pub mtime : ℕ
  pub current : Bool

unfoldable pub entry_of : ℤ → Bool → Option File → List Listed → List Listed
entry_of slot current none rest = rest
entry_of slot current (some f) rest =
    record { slot = slot; mtime = f.mtime; current = current } ∷ rest

unfoldable pub backups_listed : (ℕ → Option File) → ℕ → ℕ → List Listed
backups_listed slots i zero = []
backups_listed slots i (suc n) = entry_of (pos i) false (slots i) (backups_listed slots (i + 1) n)

-- `GET /admin/backups`
unfoldable pub list_backups : Disk → List Listed
list_backups d = entry_of (negsuc 0) true d.file (backups_listed d.slots 0 backup_keep)

-- The file of a slot; no slot below 0 has one.
unfoldable pub file_at : Disk → ℤ → Option File
file_at d (pos i) = d.slots i
file_at d (negsuc i) = none

-- The answer: the configuration then read, a status, or the error that ends the handler.
pub data Restored : Type 0 where
  restored : GatewayConfig → Restored
  rejected : ℕ → Restored
  raised : Restored

unfoldable pub answer_of : Option GatewayConfig → Restored
answer_of none = raised
answer_of (some cfg) = restored cfg

module _ (parse : Text → Parsed) (default : GatewayConfig) where
  -- The swap over the present file. Without one, its copy to slot 0 fails after the rotation.
  unfoldable pub swap_over : File → Option File → Disk × Loaded → (Disk × Loaded) × Restored
  swap_over f none (d, l) = ((record d { slots = rotate_backups d.slots }, l), raised)
  swap_over f (some old) (d, l) =
      let d' : Disk = record { file = some f; slots = put 0 (some old) (rotate_backups d.slots) } in
      let read = reload_config parse default d' l in ((d', read.1), answer_of read.0)

  unfoldable pub swap : File → Disk × Loaded → (Disk × Loaded) × Restored
  swap f s = swap_over f s.0.file s

  -- Every error of the parsing is caught here.
  unfoldable pub if_parsed : Parsed → File → Disk × Loaded → (Disk × Loaded) × Restored
  if_parsed unreadable f s = (s, rejected 422)
  if_parsed crashed f s = (s, rejected 422)
  if_parsed (parsed cfg) f s = swap f s

  unfoldable pub restore_file : Option File → Disk × Loaded → (Disk × Loaded) × Restored
  restore_file none s = (s, rejected 404)
  restore_file (some f) s = if_parsed (parse f.text) f s

  -- `POST /admin/backups/restore`; the slot is none where the body has no number.
  unfoldable pub restore_backup : Option ℤ → Disk × Loaded → (Disk × Loaded) × Restored
  restore_backup none s = (s, rejected 422)
  restore_backup (some slot) s = restore_file (file_at s.0 slot) s
