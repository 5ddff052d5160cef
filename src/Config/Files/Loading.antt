-- ===== src/Config/Files/Loading.antt =====
-- What `load_config` of config.py reads where the file itself is missing or broken.
use local_gateway.Prelude.{
  nat_eq, int_eq, Text, text_eq, ℕ, zero, suc, ◌+◌, ◌<◌, ◌≡◌, refl, ap, ◌∙◌, Bool, true, false,
  Option, none, some, List, arith,
}
use local_gateway.Config.{GatewayConfig}
use local_gateway.Config.Files.{
  File, Disk, Loaded, backup_keep, file_mtime, listed, backups_from, candidates, pick, settle,
  first_good, read_config, load_config, reload_config, Parsed, parsed, unreadable, crashed, Found,
  nothing,
}

-- The loop stops at a file that is read, and at one whose error it does not catch.
unfoldable pub is_final : Parsed → Bool
is_final unreadable = false
is_final crashed = true
is_final (parsed cfg) = true

-- What reading comes to where the backup in a slot decides it.
unfoldable pub decided_by : Parsed → ℕ → ℕ → Loaded → Option GatewayConfig × Loaded
decided_by (parsed cfg) slot mtime l =
    (some cfg, record { config = some cfg; seen = some mtime; recovered = some slot })
decided_by unreadable slot mtime l = (none, l)
decided_by crashed slot mtime l = (none, l)

pick-is_final :
    (p : Parsed) (slot : Option ℕ) (later : Found)
    → is_final p ≡ true
    → pick p slot later ≡ pick p slot nothing
unfolding pick is_final
pick-is_final unreadable slot later h = cc
pick-is_final crashed slot later h = refl
pick-is_final (parsed cfg) slot later h = refl

pick_skip : (slot : Option ℕ) (later : Found) → pick unreadable slot later ≡ later
unfolding pick
pick_skip slot later = refl

settle-decided_by :
    (p : Parsed) (slot : ℕ) (default : GatewayConfig) (mtime : ℕ) (l : Loaded)
    → is_final p ≡ true
    → settle default mtime l (pick p (some slot) nothing) ≡ decided_by p slot mtime l
unfolding pick is_final settle decided_by
settle-decided_by unreadable slot default mtime l h = cc
settle-decided_by crashed slot default mtime l h = refl
settle-decided_by (parsed cfg) slot default mtime l h = refl

module _ (parse : Text → Parsed) where
  -- What a file is read as; one that is missing is skipped like one that is not readable.
  unfoldable pub content : Option File → Parsed
  content none = unreadable
  content (some f) = parse f.text

  first_good-listed :
      (slot : Option ℕ) (o : Option File) (rest : List (Option ℕ × File))
      → first_good parse (listed slot o rest) ≡ pick (content o) slot (first_good parse rest)
  unfolding first_good listed content pick
  first_good-listed slot none rest = refl
  first_good-listed slot (some f) rest = refl

  -- The first slot of n, from i on, whose backup decides.
  unfoldable pub newest_good : (ℕ → Option File) → ℕ → ℕ → Found
  newest_good slots i zero = nothing
  newest_good slots i (suc n) = pick (content (slots i)) (some i) (newest_good slots (i + 1) n)

  first_good-backups_from :
      (slots : ℕ → Option File) (i n : ℕ)
      → first_good parse (backups_from slots i n) ≡ newest_good slots i n
  unfolding backups_from newest_good
  first_good-backups_from slots i zero = unfold first_good in refl
  first_good-backups_from slots i (suc n) =
      first_good-listed (some i) (slots i) (backups_from slots (i + 1) n)
      ∙ ap (pick (content (slots i)) (some i)) (first_good-backups_from slots (i + 1) n)

  read_config-newest_good :
      (default : GatewayConfig) (d : Disk) (l : Loaded)
      → read_config parse default d l
        ≡ settle default
            (file_mtime d)
            l
            (pick (content d.file) none (newest_good d.slots 0 backup_keep))
  unfolding read_config candidates
  read_config-newest_good default d l = ap (settle default (file_mtime d) l) (
      first_good-listed none d.file (backups_from d.slots 0 backup_keep)
      ∙ ap (pick (content d.file) none) (first_good-backups_from d.slots 0 backup_keep))

  -- Slots before k are skipped, and slot k decides.
  newest_good-at :
      (slots : ℕ → Option File) (i n k : ℕ) (p : Parsed)
      → k < n
      → ((j : ℕ) → j < k → content (slots (i + j)) ≡ unreadable)
      → content (slots (i + k)) ≡ p
      → is_final p ≡ true
      → newest_good slots i n ≡ pick p (some (i + k)) nothing
  unfolding newest_good
  newest_good-at slots i zero k p lt bad at final = absurd (omega arith)
  newest_good-at slots i (suc n) zero p lt bad at final =
      let here : content (slots i) ≡ p = ap (λ m. content (slots m)) (omega arith) ∙ at in
      ap (λ c. pick c (some i) (newest_good slots (i + 1) n)) here
      ∙ pick-is_final p (some i) (newest_good slots (i + 1) n) final
      ∙ ap (λ m. pick p (some m) nothing) (omega arith)
  newest_good-at slots i (suc n) (suc k) p lt bad at final =
      let here : content (slots i) ≡ unreadable =
        ap (λ m. content (slots m)) (omega arith) ∙ bad 0 (omega arith) in
      let later =
        newest_good-at slots (i + 1) n k p (omega arith)
          (λ j h. ap (λ m. content (slots m)) (omega arith) ∙ bad (suc j) (omega (arith, h)))
          (ap (λ m. content (slots m)) (omega arith) ∙ at) final in
      ap (λ c. pick c (some i) (newest_good slots (i + 1) n)) here
      ∙ pick_skip (some i) (newest_good slots (i + 1) n)
      ∙ later
      ∙ ap (λ m. pick p (some m) nothing) (omega arith)

  newest_good_at_first :
      (slots : ℕ → Option File) (n k : ℕ) (p : Parsed)
      → k < n
      → ((j : ℕ) → j < k → content (slots j) ≡ unreadable)
      → content (slots k) ≡ p
      → is_final p ≡ true
      → newest_good slots 0 n ≡ pick p (some k) nothing
  newest_good_at_first slots n k p lt bad at final =
      newest_good-at slots 0 n k p lt (λ j h. ap (λ m. content (slots m)) (omega arith) ∙ bad j h)
        (ap (λ m. content (slots m)) (omega arith) ∙ at) final
      ∙ ap (λ m. pick p (some m) nothing) (omega arith)

  -- Where the file, and the backups before slot k, are missing or fail with an error that is caught, the
  -- backup in slot k decides, if it is read or fails with another error: `reload_config` answers with the
  -- configuration it is read as, and remembers its slot; after an error that is not caught it raises, and
  -- leaves no configuration.
  pub reload_config-recovers :
      (default : GatewayConfig) (d : Disk) (l : Loaded) (k : ℕ) (p : Parsed)
      → content d.file ≡ unreadable
      → k < backup_keep
      → ((j : ℕ) → j < k → content (d.slots j) ≡ unreadable)
      → content (d.slots k) ≡ p
      → is_final p ≡ true
      → reload_config parse default d l
        ≡ decided_by p k (file_mtime d) (record l { config = none; seen = none })
  unfolding reload_config load_config
  reload_config-recovers default d l k p gone lt bad at final =
      let fresh : Loaded = record l { config = none; seen = none } in
      read_config-newest_good default d fresh
      ∙ ap
          (λ c.
            settle default (file_mtime d) fresh (pick c none (newest_good d.slots 0 backup_keep)))
          gone
      ∙ ap (settle default (file_mtime d) fresh) (
          pick_skip none (newest_good d.slots 0 backup_keep)
          ∙ newest_good_at_first d.slots backup_keep k p lt bad at final)
      ∙ settle-decided_by p k default (file_mtime d) fresh final
