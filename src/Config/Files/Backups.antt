-- ===== src/Config/Files/Backups.antt =====
-- What the rotation of config.py keeps of the files that were saved.
use local_gateway.Prelude.{
  ltb, eqb, if◌then◌else◌, Bool-cases, nat_eq, int_eq, Text, text_eq, ℕ, zero, suc, ◌+◌, ◌<◌, ◌≡◌,
  refl, ap, ◌∙◌, inl, inr, Option, none, some, List, [], ◌∷◌, arith,
}
use local_gateway.Config.Files.{
  File, put, carry, shift, shift_down, back_up, List, GatewayConfig, rotate_backups, ◌∷◌, Disk,
  Text, backup_keep, Loaded, save_config,
}

unfoldable pub or_else : Option File → Option File → Option File
or_else none o = o
or_else (some f) o = some f

or_else-none : (o : Option File) → or_else o none ≡ o
unfolding or_else
or_else-none none = refl
or_else-none (some f) = refl

carry-at :
    (o : Option File) (n : ℕ) (s : ℕ → Option File) (j : ℕ)
    → s n ≡ o
    → carry o n s j
      ≡ (if eqb j n then none else if eqb j (suc n) then or_else o (s (suc n)) else s j)
unfolding carry put or_else
carry-at none n s j h = elim (Bool-cases (eqb j n)) [
  | inl e ↦ let same : j ≡ n = ground arith in rw e (ap s same ∙ h)
  | inr e ↦ rw e (ground (arith, ap s))
]
carry-at (some f) n s j h = ground arith

shift-at :
    (n : ℕ) (s : ℕ → Option File) (j : ℕ)
    → shift n s j
      ≡ (if eqb j n then none else if eqb j (suc n) then or_else (s n) (s (suc n)) else s j)
unfolding shift
shift-at n s j = carry-at (s n) n s j refl

-- What the slots hold after the turns from slot n - 1 down.
moved : ℕ → (ℕ → Option File) → ℕ → Option File
moved n s zero = if eqb n 0 then s 0 else none
moved n s (suc j) =
    if ltb n (suc j) then s (suc j) else if eqb n (suc j) then or_else (s j) (s (suc j)) else s j

moved-shift : (n : ℕ) (s : ℕ → Option File) (j : ℕ) → moved n (shift n s) j ≡ moved (suc n) s j
unfolding moved
moved-shift n s zero = ground (arith, shift-at n s 0)
moved-shift n s (suc j) =
    ground (arith, shift-at n s j, shift-at n s (suc j), or_else-none (s j), ap s)

shift_down-moved : (n : ℕ) (s : ℕ → Option File) (j : ℕ) → shift_down n s j ≡ moved n s j
unfolding shift_down
shift_down-moved zero s zero = unfold moved in refl
shift_down-moved zero s (suc j) = unfold moved in ground arith
shift_down-moved (suc n) s j = shift_down-moved n (shift n s) j ∙ moved-shift n s j

-- The slots after a save over a file: each moves up one, the last is kept where nothing moves onto it.
back_up-at :
    (f : File) (s : ℕ → Option File) (j : ℕ)
    → back_up (some f) s (suc j)
      ≡ (if ltb j 3 then s j else if eqb j 3 then or_else (s 3) (s 4) else put 5 none s (suc j))
unfolding back_up rotate_backups put moved
back_up-at f s j = ground (arith, shift_down-moved 4 (put backup_keep none s) (suc j), ap s)

unfoldable pub nth : ℕ → List File → Option File
nth n [] = none
nth zero (f ∷ fs) = some f
nth (suc n) (f ∷ fs) = nth n fs

nth_after_none : (n : ℕ) (h : List File) → or_else (nth n h) (nth (suc n) h) ≡ nth n h
unfolding nth or_else
nth_after_none zero [] = refl
nth_after_none zero (f ∷ h) = refl
nth_after_none (suc n) [] = refl
nth_after_none (suc n) (f ∷ h) = nth_after_none n h

-- The files hold a history, the newest first.
Holds : List File → Disk → Type 0
Holds h d = (d.file ≡ nth 0 h) × ((i : ℕ) → i < backup_keep → d.slots i ≡ nth (suc i) h)

back_up-nth :
    (h : List File) (s : ℕ → Option File) (g : File)
    → ((i : ℕ) → i < backup_keep → s i ≡ nth (suc i) h)
    → (i : ℕ) → i < backup_keep
    → back_up (nth 0 h) s i ≡ nth (suc i) (g ∷ h)
unfolding nth
back_up-nth [] s g hs i lt = unfold back_up in hs i lt
back_up-nth (f ∷ h) s g hs zero lt = unfold back_up put in refl
back_up-nth (f ∷ h) s g hs (suc i) lt = back_up-at f s i ∙ elim (Bool-cases (ltb i 3)) [
  | inl low ↦ rw low (hs i (omega arith))
  | inr high ↦
      let last : i ≡ 3 = ground arith in
      rw high (rw last (rw (hs 3 (omega arith), hs 4 (omega arith)) (nth_after_none 3 h)))
]

module _ (dump : GatewayConfig → Text) where
  unfoldable pub written : GatewayConfig → ℕ → File
  written cfg now = record { text = dump (record cfg { version = cfg.version + 1 }); mtime = now }

  -- The saved files, the newest first.
  unfoldable pub history : List File → List (GatewayConfig × ℕ) → List File
  history h [] = h
  history h ((cfg, now) ∷ saves) = history (written cfg now ∷ h) saves

  unfoldable pub save_all : List (GatewayConfig × ℕ) → Disk × Loaded → Disk × Loaded
  save_all [] s = s
  save_all ((cfg, now) ∷ saves) s = save_all saves (save_config dump cfg now s)

  Holds-save_all :
      (saves : List (GatewayConfig × ℕ)) (h : List File) (s : Disk × Loaded)
      → Holds h s.0
      → Holds (history h saves) (save_all saves s).0
  unfolding Holds history save_all save_config
  Holds-save_all [] h s k = k
  Holds-save_all ((cfg, now) ∷ saves) h s k =
      Holds-save_all saves (written cfg now ∷ h) (save_config dump cfg now s) (
        (unfold nth written in refl),
        λ i lt.
            ap (λ f. back_up f s.0.slots i) k.0
            ∙ back_up-nth h s.0.slots (written cfg now) k.1 i lt,
      )

  -- After saves from a directory without files, the file is the last one saved, and the backups are
  -- the up to five saved before it, the newest first.
  pub save_all-history :
      (saves : List (GatewayConfig × ℕ)) (l : Loaded) (i : ℕ)
      → i < backup_keep
      → ((save_all saves (record { file = none; slots = λ j. none }, l)).0.file
          ≡ nth 0 (history [] saves))
        × ((save_all saves (record { file = none; slots = λ j. none }, l)).0.slots i
            ≡ nth (suc i) (history [] saves))
  unfolding Holds
  save_all-history saves l i lt =
      let empty : Disk = record { file = none; slots = λ j. none } in
      let k = Holds-save_all saves [] (empty, l) (unfold nth in refl, λ j h. unfold nth in refl) in
      (k.0, k.1 i lt)
