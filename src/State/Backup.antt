-- ===== src/State/Backup.antt =====
-- A state that was saved is loaded, and so is the one before it (internal/state/state.go).
use opl_core.Prelude.{
  ◌≡◌, Bool, true, false, Option, some, none, ok, err, arith, refl, sym, ap, ◌∙◌, subst, Bool-cases,
  inl, inr,
}
use opl_core.State.{
  Room, Error, Json, Files, validate, checked, load_one, load, keep_backup, put_main, is_valid_text,
  save,
}

module _ {T : Type 0} (json : Json T) where
  checked-valid :
      (o : Option Room) (value : Room)
      → checked json o ≡ ok value
      → (o ≡ some value) × (validate value ≡ true)
  checked-valid none value h = absurd (ground arith)
  checked-valid (some read) value h = elim (Bool-cases (validate read)) [
    | inl valid ↦ ground arith
    | inr invalid ↦ absurd (ground arith)
  ]

  checked-some : (value : Room) → validate value ≡ true → checked json (some value) ≡ ok value
  checked-some value valid = ground arith

  -- What a save that succeeds has written.
  written :
      (backup_writes writes : Bool) (value : Room) (o : Option T) (files after : Files T)
      → put_main json writes value (keep_backup json backup_writes o files) ≡ (after, ok tt)
      → (after.main ≡ some (json.write value))
        × ((old : T)
            → o ≡ some old
            → is_valid_text json (json.read_any old) ≡ true
            → after.backup ≡ some old)
  written backup_writes true value none files after h =
      (ap (λ x. x.0.main) (sym h), λ old e v. absurd (ground arith))
  written backup_writes false value none files after h = absurd (ground arith)
  written backup_writes writes value (some old) files after h =
      elim (Bool-cases (is_valid_text json (json.read_any old))) [
        | inl valid ↦ ground arith
        | inr invalid ↦ ground arith
      ]

  backup_loads :
      (strict : (text : T) (old : Room) → json.read text ≡ some old → json.read_any text ≡ some old)
      (previous : Room) (o b : Option T)
      → load_one json o ≡ ok previous
      → ((old : T) → o ≡ some old → is_valid_text json (json.read_any old) ≡ true → b ≡ some old)
      → load_one json b ≡ ok previous
  unfolding load_one
  backup_loads strict previous none b p f = absurd (ground arith)
  backup_loads strict previous (some old) b p f =
      let (r, v) = checked-valid (json.read old) previous p in
      let same : b ≡ some old = f old refl (rw (strict old previous r) v) in
      subst (λ c. load_one json c ≡ ok previous) (sym same) p

  main_loads :
      (value : Room) (m : Option T)
      → m ≡ some (json.write value)
      → json.read (json.write value) ≡ some value
      → validate value ≡ true
      → load_one json m ≡ ok value
  unfolding load_one
  main_loads value m e back valid =
      subst (λ c. load_one json c ≡ ok value) (sym e)
        (ap (checked json) back ∙ checked-some value valid)

  -- A state that was saved, where the JSON of this state is read as it was written, and whatever the
  -- strict decoder reads is read alike by the other one: loading gives the state back; and if the file
  -- held a valid state before, and is then lost or damaged, loading gives that one.
  pub load-save :
      (backup_writes writes : Bool) (value : Room) (files after : Files T)
      → ((text : T) (old : Room) → json.read text ≡ some old → json.read_any text ≡ some old)
      → json.read (json.write value) ≡ some value
      → save json backup_writes writes value files ≡ (after, ok tt)
      → (load json after ≡ ok value)
        × ((previous : Room) (damaged : Option T) (e : Error)
            → load_one json files.main ≡ ok previous
            → load_one json damaged ≡ err e
            → load json (record after { main = damaged }) ≡ ok previous)
  unfolding save load
  load-save backup_writes writes value files after strict back h =
      elim (Bool-cases (validate value)) [
        | inr invalid ↦ absurd (ground arith)
        | inl valid ↦
            let stored : put_main json writes value
                  (keep_backup json backup_writes files.main files)
                ≡ (after, ok tt) =
              ground arith in
            let (main, kept) = written backup_writes writes value files.main files after stored in
            (
              rw (main_loads value after.main main back valid) refl,
              λ previous damaged e p q.
                  rw (q, backup_loads strict previous files.main after.backup p kept) refl,
            )
      ]
