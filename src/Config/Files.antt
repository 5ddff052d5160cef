-- ===== src/Config/Files.antt =====
-- localgateway/config.py: the file of the configuration, its backups, `load_config` and `save_config`.
-- A file is its text and its time of change. The file system does what it is asked; `parse` reads a
-- text (json, the migration and the validation by pydantic) and `dump` prints a configuration.
-- `load_config` catches the errors of `parse` that are a JSONDecodeError, a ValueError or an OSError.
pub mod Backups
pub mod Loading
use local_gateway.Prelude.{
  eqb, if◌then◌else◌, nat_eq, int_eq, Text, text_eq, ℕ, zero, suc, ◌+◌, ◌-◌, Bool, false, Option,
  none, some, List, [], ◌∷◌, arith,
}
use local_gateway.Config.{GatewayConfig}

pub record File : Type 0 where
  pub text : Text
  pub mtime : ℕ

-- The files: slot 0 is `.bak`, slot i is `.bak.i`.
pub record Disk : Type 0 where
  pub file : Option File
  pub slots : ℕ → Option File

abbrev pub backup_keep : ℕ
backup_keep = 5

-- The module's state; `seen` is `_config_mtime`, none for -1.
pub record Loaded : Type 0 where
  pub config : Option GatewayConfig
  pub seen : Option ℕ
  pub recovered : Option ℕ

unfoldable pub file_mtime : Disk → ℕ
file_mtime d = elim d.file [ none ↦ 0 | some f ↦ f.mtime ]

unfoldable pub put : ℕ → Option File → (ℕ → Option File) → ℕ → Option File
put i f slots j = if eqb j i then f else slots j

unfoldable pub carry : Option File → ℕ → (ℕ → Option File) → ℕ → Option File
carry none i slots = slots
carry (some f) i slots = put i none (put (i + 1) (some f) slots)

-- One turn of the loop: slot i moves up, over what is there.
unfoldable pub shift : ℕ → (ℕ → Option File) → ℕ → Option File
shift i slots = carry (slots i) i slots

-- The turns from slot n - 1 down to slot 0.
unfoldable pub shift_down : ℕ → (ℕ → Option File) → ℕ → Option File
shift_down zero slots = slots
shift_down (suc n) slots = shift_down n (shift n slots)

unfoldable pub rotate_backups : (ℕ → Option File) → ℕ → Option File
rotate_backups slots = shift_down (backup_keep - 1) (put backup_keep none slots)

-- Before a write: the file goes to slot 0.
unfoldable pub back_up : Option File → (ℕ → Option File) → ℕ → Option File
back_up none slots = slots
back_up (some f) slots = put 0 (some f) (rotate_backups slots)

module _ (dump : GatewayConfig → Text) where
  -- `now` is the time of the write.
  unfoldable pub save_config : GatewayConfig → ℕ → Disk × Loaded → Disk × Loaded
  save_config cfg now (d, l) =
      let next = record cfg { version = cfg.version + 1 } in
      (
        record {
          file = some (record { text = dump next; mtime = now });
          slots = back_up d.file d.slots;
        },
        record { config = some next; seen = some now; recovered = none },
      )

-- The candidates in the order of the loop: the file, then the backups from the newest.
unfoldable pub listed : Option ℕ → Option File → List (Option ℕ × File) → List (Option ℕ × File)
listed slot none rest = rest
listed slot (some f) rest = (slot, f) ∷ rest

unfoldable pub backups_from : (ℕ → Option File) → ℕ → ℕ → List (Option ℕ × File)
backups_from slots i zero = []
backups_from slots i (suc n) = listed (some i) (slots i) (backups_from slots (i + 1) n)

unfoldable pub candidates : Disk → List (Option ℕ × File)
candidates d = listed none d.file (backups_from d.slots 0 backup_keep)

-- What a text is read as: a configuration, an error that the loop catches, or another one, a TypeError
-- of the migration for example.
pub data Parsed : Type 0 where
  parsed : GatewayConfig → Parsed
  unreadable crashed : Parsed

-- What the loop finds: the configuration with its slot, nothing, or an error that ends `load_config`.
pub data Found : Type 0 where
  found : GatewayConfig → Option ℕ → Found
  nothing raising : Found

-- The parsed candidate, or what the later ones give; an error that is not caught ends the loop.
unfoldable pub pick : Parsed → Option ℕ → Found → Found
pick unreadable slot later = later
pick crashed slot later = raising
pick (parsed cfg) slot later = found cfg slot

-- The answer and the state after reading: the configuration found, or `GatewayConfig()`; none and the
-- state before, where an error ended the loop.
unfoldable pub settle : GatewayConfig → ℕ → Loaded → Found → Option GatewayConfig × Loaded
settle default mtime l nothing =
    (some default, record { config = some default; seen = some mtime; recovered = none })
settle default mtime l raising = (none, l)
settle default mtime l (found cfg slot) =
    (some cfg, record { config = some cfg; seen = some mtime; recovered = slot })

module _ (parse : Text → Parsed) where
  -- The first candidate that parses, and the slot it came from.
  unfoldable pub first_good : List (Option ℕ × File) → Found
  first_good [] = nothing
  first_good ((slot, f) ∷ rest) = pick (parse f.text) slot (first_good rest)

  unfoldable pub read_config : GatewayConfig → Disk → Loaded → Option GatewayConfig × Loaded
  read_config default d l = settle default (file_mtime d) l (first_good (candidates d))

  unfoldable pub is_current : Disk → Loaded → Bool
  is_current d l = elim l.seen [ none ↦ false | some t ↦ eqb (file_mtime d) t ]

  unfoldable pub load_config : GatewayConfig → Disk → Loaded → Option GatewayConfig × Loaded
  load_config default d l = elim l.config [
    | none ↦ read_config default d l
    | some cfg ↦ if is_current d l then (some cfg, l) else read_config default d l
  ]

  unfoldable pub reload_config : GatewayConfig → Disk → Loaded → Option GatewayConfig × Loaded
  reload_config default d l = load_config default d (record l { config = none; seen = none })

unfoldable pub last_good_backup : Disk → Option ℕ
last_good_backup d = elim (backups_from d.slots 0 backup_keep) [
  | [] ↦ none
  | (slot, f) ∷ rest ↦ slot
]
