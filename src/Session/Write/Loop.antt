-- ===== src/Session/Write/Loop.antt =====
-- The loop of `writePrivateFileAtomic` around `writeSync`.
use rclone_proton_drive_webd.Base.{
  ℕ, zero, suc, ◌+◌, ◌-◌, ◌<◌, ◌≤◌, ◌≡◌, ◌≢◌, ◌⊎◌, refl, sym, ◌∙◌, ap, true, false, inl, inr,
  Option, none, some, [], ◌∷◌, arith, ltb, ltb→lt, ◌==◌, if◌then◌else◌, length, take, Bool-cases,
}
use rclone_proton_drive_webd.Base.Text.{Text}
use rclone_proton_drive_webd.Base.Map.{get, set, get-set_self, get-set_ne}
use rclone_proton_drive_webd.Gateway.{Bytes}
use rclone_proton_drive_webd.Session.Disk.{
  Entry, Disk, Result, done, failed, Act, raise, plain, continue, ◌>>◌, Machine, write, set_content,
  regular, Code, unless_fails, on_entry,
}
use rclone_proton_drive_webd.Base.Triple.{Post, Triple, then-Triple}
use rclone_proton_drive_webd.Session.Write.{owner_only, write_loop}

-- Nothing, or a regular file.
abbrev pub IsFile : Option Entry → Type 0
IsFile none = Unit
IsFile (some e) = e.kind ≡ regular

module _ (m : Machine) (name : Text) (bytes : Bytes) where
  abbrev count : ℕ → ℕ
  count written = m.takes written (length bytes - written)

  -- One turn of the loop.
  abbrev turn : ℕ → ℕ → Act Disk (Unit {0})
  turn fuel written =
      set_content m name (take (written + count written) bytes)
      >> (if count written == 0
          then raise plain
          else write_loop m fuel name bytes (written + count written))

  write_loop-turn :
      (fuel written : ℕ) (d : Disk)
      → ltb written (length bytes) ≡ true
      → write_loop m (suc fuel) name bytes written d ≡ turn fuel written d
  unfolding write_loop
  write_loop-turn fuel written d h = rw h

  write_loop-end :
      (fuel written : ℕ) (d : Disk)
      → ltb written (length bytes) ≡ false
      → write_loop m (suc fuel) name bytes written d ≡ (done tt, d)
  unfolding write_loop
  write_loop-end fuel written d h = rw h

  turn-fuel :
      (fuel fuel' written : ℕ) (d : Disk)
      → ((d' : Disk)
          → count written ≢ 0
          → write_loop m fuel name bytes (written + count written) d'
            ≡ write_loop m fuel' name bytes (written + count written) d')
      → turn fuel written d ≡ turn fuel' written d
  turn-fuel fuel fuel' written d same =
      go (set_content m name _ d) (Bool-cases (count written == 0))
    where
      go :
          (r : Result (Unit {0}) × Disk)
          → ((count written == 0) ≡ true) ⊎ ((count written == 0) ≡ false)
          → continue
              (λ _.
                if count written == 0
                then raise plain
                else write_loop m fuel name bytes (written + count written))
              r
            ≡ continue
                (λ _.
                  if count written == 0
                  then raise plain
                  else write_loop m fuel' name bytes (written + count written))
                r
      go (failed e, d') z = refl
      go (done tt, d') (inl z) = rw z
      go (done tt, d') (inr z) = rw z (same d' (ground arith))

  -- Any two fuels of at least the bytes left, and one unit more, give the same.
  pub write_loop-enough :
      (fuel fuel' written : ℕ) (d : Disk)
      → length bytes ≤ fuel + written
      → length bytes ≤ fuel' + written
      → write_loop m (suc fuel) name bytes written d ≡ write_loop m (suc fuel') name bytes written d
  write_loop-enough zero fuel' written d h h' =
      write_loop-end zero written d (ground arith)
      ∙ sym (write_loop-end fuel' written d (ground arith))
  write_loop-enough (suc fuel) zero written d h h' =
      write_loop-end (suc fuel) written d (ground arith)
      ∙ sym (write_loop-end zero written d (ground arith))
  write_loop-enough (suc fuel) (suc fuel') written d h h' =
      elim (Bool-cases (ltb written (length bytes))) [
        | inr e ↦ write_loop-end _ written d e ∙ sym (write_loop-end _ written d e)
        | inl e ↦
            write_loop-turn _ written d e
            ∙ turn-fuel (suc fuel) (suc fuel') written d (λ d' ne.
              write_loop-enough fuel fuel' (written + count written) d' (omega arith) (omega arith))
            ∙ sym (write_loop-turn _ written d e)
      ]

  -- What the file holds when `written` bytes are in it, the others being as in `d`.
  abbrev pub Holds : Disk → Bytes → Disk → Type 0
  Holds d content d' =
      ((e : Entry) × (get name d'.files ≡ some e)
        × (e.kind ≡ regular)
        × (e.mode ≡ owner_only)
        × (e.content ≡ content))
      × ((q : Text) → q ≢ name → get q d'.files ≡ get q d.files)

  abbrev pub Untouched : Disk → Disk → Type 0
  Untouched d d' =
      ((q : Text) → q ≢ name → get q d'.files ≡ get q d.files) × IsFile (get name d'.files)

  pub Holds-Untouched : (d d' : Disk) (content : Bytes) → Holds d content d' → Untouched d d'
  Holds-Untouched d d' content ((e, here, kind, mode, bs), rest) = (rest, rw here kind)

  set_content-Holds :
      (d d' : Disk) (old new : Bytes)
      → Holds d old d'
      → Post (λ _. Holds d new) (λ _. Untouched d) (set_content m name new d')
  unfolding set_content
  set_content-Holds d d' old new ((e, here, kind, mode, content), rest) =
      rw here (go (m.fails write name))
    where
      go :
          (f : Option Code)
          → Post
              (λ _. Holds d new)
              (λ _. Untouched d)
              (unless_fails m f
                (on_entry m (some e) (λ e d. (
                  done tt,
                  record d { files = set name (record e { content = new; mtime = m.now }) d.files },
                )))
                d')
      go (some c) = (rest, rw here kind)
      go none = (
        (record e { content = new; mtime = m.now }, get-set_self name _ d'.files, kind, mode, refl),
        λ q ne. get-set_ne q name _ d'.files ne ∙ rest q ne,
      )

  take_all : (n : ℕ) (xs : Bytes) → length xs ≤ n → take n xs ≡ xs
  take_all zero [] h = refl
  take_all zero (x ∷ xs) h = absurd (omega arith)
  take_all (suc n) [] h = refl
  take_all (suc n) (x ∷ xs) h = ap (λ l. x ∷ l) (take_all n xs (omega arith))

  turn-Holds :
      (fuel written : ℕ) (d : Disk)
      → (count written ≢ 0
          → Triple
              (Holds d (take (written + count written) bytes))
              (write_loop m fuel name bytes (written + count written))
              (λ _. Holds d bytes)
              (λ _. Untouched d))
      → Triple
          (Holds d (take written bytes))
          (turn fuel written)
          (λ _. Holds d bytes)
          (λ _. Untouched d)
  turn-Holds fuel written d rest =
      then-Triple (λ _. Holds d (take (written + count written) bytes)) (λ _. Untouched d)
        (λ _. Holds d bytes) (Holds d (take written bytes)) _ _
        (λ d'. set_content-Holds d d' (take written bytes) _)
        (λ _ d' h. elim (Bool-cases (count written == 0)) [
          | inl z ↦ rw z (Holds-Untouched d d' _ h)
          | inr z ↦ rw z (rest (ground arith) d' h)
        ])

  write_loop-end-Holds :
      (fuel written : ℕ) (d d' : Disk)
      → ltb written (length bytes) ≡ false
      → Holds d (take written bytes) d'
      → Post (λ _. Holds d bytes) (λ _. Untouched d) (write_loop m (suc fuel) name bytes written d')
  write_loop-end-Holds fuel written d d' e here =
      rw (write_loop-end fuel written d' e) (rw (← take_all written bytes (ground arith)) here)

  -- With fuel for the bytes left the loop ends with all the bytes in the file, or fails; no other file
  -- changes.
  pub write_loop-Holds :
      (fuel written : ℕ) (d : Disk)
      → length bytes ≤ fuel + written
      → Triple
          (Holds d (take written bytes))
          (write_loop m (suc fuel) name bytes written)
          (λ _. Holds d bytes)
          (λ _. Untouched d)
  write_loop-Holds zero written d h d' here =
      write_loop-end-Holds zero written d d' (ground arith) here
  write_loop-Holds (suc fuel) written d h d' here = elim (Bool-cases (ltb written (length bytes))) [
    | inr e ↦ write_loop-end-Holds (suc fuel) written d d' e here
    | inl e ↦ rw (write_loop-turn (suc fuel) written d' e) (
        turn-Holds (suc fuel) written d
          (λ ne. write_loop-Holds fuel (written + count written) d (omega arith)) d' here)
  ]

  abbrev pub Present : Disk → Type 0
  Present d = (e : Entry) × (get name d.files ≡ some e)

  set_content-Present :
      (content : Bytes) (d : Disk)
      → m.fails write name ≡ none
      → Present d
      → Post (λ _. Present) (λ _ _. ⊥) (set_content m name content d)
  unfolding set_content
  set_content-Present content d free (e, here) =
      rw (free, here) (record e { content = content; mtime = m.now }, get-set_self name _ d.files)

  -- The operating system takes at least a byte of what it is given.
  abbrev pub IsProgressing : Type 0
  IsProgressing = (written asked : ℕ) → 0 < asked → 0 < m.takes written asked

  turn-Present :
      (fuel written : ℕ)
      → m.fails write name ≡ none
      → count written ≢ 0
      → Triple Present
          (write_loop m fuel name bytes (written + count written))
          (λ _. Present)
          (λ _ _. ⊥)
      → Triple Present (turn fuel written) (λ _. Present) (λ _ _. ⊥)
  turn-Present fuel written free ne rest =
      then-Triple (λ _. Present) (λ _ _. ⊥) (λ _. Present) Present
        (set_content m name (take (written + count written) bytes))
        (λ _.
          if count written == 0
          then raise plain
          else write_loop m fuel name bytes (written + count written))
        (λ d here. set_content-Present _ d free here)
        (λ _ d here. elim (Bool-cases (count written == 0)) [
          | inl z ↦ absurd (ne (ground arith))
          | inr z ↦ rw z (rest d here)
        ])

  -- Where no write fails and each takes a byte, the loop does not fail.
  pub write_loop-Present :
      (fuel written : ℕ)
      → length bytes ≤ fuel + written
      → m.fails write name ≡ none
      → IsProgressing
      → Triple Present (write_loop m (suc fuel) name bytes written) (λ _. Present) (λ _ _. ⊥)
  write_loop-Present zero written h free p d here =
      rw (write_loop-end zero written d (ground arith)) here
  write_loop-Present (suc fuel) written h free p d here =
      elim (Bool-cases (ltb written (length bytes))) [
        | inr e ↦ rw (write_loop-end (suc fuel) written d e) here
        | inl e ↦
            let some_byte : 0 < count written =
              p written (length bytes - written) (omega (arith, ltb→lt written (length bytes) e)) in
            rw (write_loop-turn (suc fuel) written d e) (
              turn-Present (suc fuel) written free (λ z. omega arith)
                (write_loop-Present fuel (written + count written) (omega arith) free p) d here)
      ]

  ended :
      (d0 : Disk) (r : Result (Unit {0}) × Disk)
      → Post (λ _. Holds d0 bytes) (λ _. Untouched d0) r
      → Post (λ _. Present) (λ _ _. ⊥) r
      → (r.0 ≡ done tt) × Holds d0 bytes r.1
  ended d0 (done _, d) h p = (refl, h)
  ended d0 (failed e, d) h p = absurd p

  -- Where no write fails and each takes a byte at least, the loop ends: any fuel of a unit more than there
  -- are bytes gives the same result, in which all the bytes are in the file and no other file has changed.
  pub write_loop-ends :
      (fuel : ℕ) (d0 d : Disk)
      → length bytes ≤ fuel
      → Holds d0 [] d
      → m.fails write name ≡ none
      → IsProgressing
      → (write_loop m (suc fuel) name bytes 0 d ≡ write_loop m (suc (length bytes)) name bytes 0 d)
        × ((write_loop m (suc fuel) name bytes 0 d).0 ≡ done tt)
        × Holds d0 bytes (write_loop m (suc fuel) name bytes 0 d).1
  write_loop-ends fuel d0 d enough here free p =
      let ((e, present, kind, mode, holding), others) = here in
      let (fine, holds) =
        ended d0 _ (write_loop-Holds fuel 0 d0 (omega arith) d here)
          (write_loop-Present fuel 0 (omega arith) free p d (e, present)) in
      (write_loop-enough fuel (length bytes) 0 d (omega arith) (omega arith), fine, holds)
