-- ===== src/Admin/Backups/Undo.antt =====
-- A backup that is restored from the admin page can be taken back.
use local_gateway.Prelude.{
  pos, nat_eq, int_eq, Text, text_eq, ℕ, ◌≡◌, refl, ap, ◌∙◌, Option, none, some,
}
use local_gateway.Config.{GatewayConfig}
use local_gateway.Config.Files.{
  File, Disk, Loaded, backup_keep, rotate_backups, put, reload_config, load_config, read_config,
  settle, first_good, candidates, listed, backups_from, pick, file_mtime, Parsed, parsed,
}
use local_gateway.Admin.Backups.{
  restored, file_at, swap, restore_file, restore_backup, if_parsed, swap_over, answer_of,
}

module _ (parse : Text → Parsed) (default : GatewayConfig) where
  restore_backup-swap_over :
      (i : ℕ) (f old : File) (cfg : GatewayConfig) (d : Disk) (l : Loaded)
      → d.file ≡ some old
      → d.slots i ≡ some f
      → parse f.text ≡ parsed cfg
      → restore_backup parse default (some (pos i)) (d, l)
        ≡ swap_over parse default f (some old) (d, l)
  unfolding restore_backup file_at restore_file if_parsed swap
  restore_backup-swap_over i f old cfg d l there here good =
      ap (λ o. restore_file parse default o (d, l)) here
      ∙ ap (λ o. if_parsed parse default o f (d, l)) good
      ∙ ap (λ o. swap_over parse default f o (d, l)) there

  reload_config-good :
      (f : File) (cfg : GatewayConfig) (slots : ℕ → Option File) (l : Loaded)
      → parse f.text ≡ parsed cfg
      → (reload_config parse default (record { file = some f; slots = slots }) l).0 ≡ some cfg
  unfolding reload_config load_config read_config first_good candidates listed pick settle
      file_mtime
  reload_config-good f cfg slots l good =
      ap
        (λ o.
          (settle default f.mtime (record l { config = none; seen = none })
            (pick o none (first_good parse (backups_from slots 0 backup_keep)))).0)
        good

  -- Where there is a file, and the slot has a backup that parses, the restored configuration is the one
  -- that is read from then on, the file before is the newest backup, and to restore that one brings the
  -- file back.
  pub restore_backup-back :
      (i : ℕ) (f old : File) (cfg before : GatewayConfig) (d : Disk) (l : Loaded)
      → d.file ≡ some old
      → d.slots i ≡ some f
      → parse f.text ≡ parsed cfg
      → parse old.text ≡ parsed before
      → ((restore_backup parse default (some (pos i)) (d, l)).1 ≡ restored cfg)
        × ((restore_backup parse default (some (pos i)) (d, l)).0.0.slots 0 ≡ some old)
        × ((restore_backup parse default
              (some (pos 0))
              (restore_backup parse default (some (pos i)) (d, l)).0).0.0.file
            ≡ some old)
        × ((restore_backup parse default
              (some (pos 0))
              (restore_backup parse default (some (pos i)) (d, l)).0).1
            ≡ restored before)
  restore_backup-back i f old cfg before d l there here good fine =
      let done = swap_over parse default f (some old) (d, l) in
      let back = swap_over parse default old (some f) done.0 in
      let first = restore_backup-swap_over i f old cfg d l there here good in
      let again : restore_backup parse default (some (pos 0)) done.0 ≡ back =
        restore_backup-swap_over 0 old f before done.0.0 done.0.1 (unfold swap_over in refl)
          (unfold swap_over put in refl) fine in
      let twice = ap (λ r. restore_backup parse default (some (pos 0)) r.0) first ∙ again in
      unfold swap_over put answer_of in
      (
        ap (λ r. r.1) first
            ∙ ap answer_of
                (reload_config-good f cfg (put 0 (some old) (rotate_backups d.slots)) l good),
        ap (λ r. r.0.0.slots 0) first,
        ap (λ r. r.0.0.file) twice,
        ap (λ r. r.1) twice
            ∙ ap answer_of (
                reload_config-good old before (put 0 (some f) (rotate_backups done.0.0.slots))
                  done.0.1 fine),
      )
