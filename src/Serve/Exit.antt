-- ===== src/Serve/Exit.antt =====
-- How a service of src/service/serve.ts ends, by a signal or because its socket is gone.
use rclone_proton_drive_webd.Base.{
  ℕ, zero, suc, ◌≡◌, refl, ◌∙◌, ap, inl, inr, Bool, true, false, not, Option, none, some, List, [],
  ◌∷◌, Bool-cases,
}
use rclone_proton_drive_webd.Base.Map.{get}
use rclone_proton_drive_webd.Base.Int.{ℤ}
use rclone_proton_drive_webd.Gateway.{Bytes}
use rclone_proton_drive_webd.Session.Disk.{Disk, Machine}
use rclone_proton_drive_webd.Session.Lock.{session_lock_filename}
use rclone_proton_drive_webd.Serve.{
  PathEntry, Site, Calls, Service, Event, signal, tick, drained, moved, is_gone, react, step_of,
  step, run, serving,
}
use rclone_proton_drive_webd.Serve.Release.{IsMine, given_back, given_back-IsMine}

module _ (parse_pid : Bytes → Option (Option ℤ)) (m : Machine) (k : Calls) where
  -- What the process has done with the directory it had when it began to listen.
  abbrev pub DiskAt : Disk → Option ℕ → Disk → Type 0
  DiskAt d0 none d = d ≡ d0
  DiskAt d0 (some zero) d = d ≡ given_back parse_pid m d0
  DiskAt d0 (some (suc code)) d = d ≡ d0

  -- The watchdog watches while no shutdown has begun.
  abbrev pub Inv : Disk → ℕ → Service → Type 0
  Inv d0 bound s =
      DiskAt d0 s.exit_code s.disk × (s.watching ≡ not s.shutting_down) × (s.bound_ino ≡ bound)

  abbrev state : Option PathEntry → Disk → ℕ → Bool → Bool → Option ℕ → Service
  state place disk bound watching down code = record {
    place = place;
    disk = disk;
    bound_ino = bound;
    watching = watching;
    shutting_down = down;
    exit_code = code;
  }

  react-Inv :
      (d0 : Disk) (bound : ℕ) (e : Event) (place : Option PathEntry) (disk : Disk) (ino : ℕ)
      (watching down : Bool)
      → Inv d0 bound (state place disk ino watching down none)
      → Inv d0 bound (react parse_pid m k e (state place disk ino watching down none))
  react-Inv d0 bound signal place disk ino watching true h = h
  react-Inv d0 bound signal place disk ino watching false (same, quiet, i) = (same, refl, i)
  react-Inv d0 bound tick place disk ino false down h = h
  react-Inv d0 bound tick place disk ino true true (same, quiet, i) = cc
  react-Inv d0 bound tick place disk ino true false (same, quiet, i) =
      elim (Bool-cases (is_gone parse_pid m k place ino)) [
        | inl gone ↦ rw gone (same, refl, i)
        | inr here ↦ rw here (same, quiet, i)
      ]
  react-Inv d0 bound drained place disk ino watching true (same, quiet, i) =
      (ap (given_back parse_pid m) same, quiet, i)
  react-Inv d0 bound drained place disk ino watching false h = h
  react-Inv d0 bound (moved p) place disk ino watching down h = h

  step_of-Inv :
      (d0 : Disk) (bound : ℕ) (e : Event) (s : Service) (code : Option ℕ)
      → Inv d0 bound (record s { exit_code = code })
      → Inv d0 bound (step_of parse_pid m k code e (record s { exit_code = code }))
  step_of-Inv d0 bound e s none h =
      react-Inv d0 bound e s.place s.disk s.bound_ino s.watching s.shutting_down h
  step_of-Inv d0 bound signal s (some code) h = h
  step_of-Inv d0 bound tick s (some code) h = h
  step_of-Inv d0 bound drained s (some code) h = h
  step_of-Inv d0 bound (moved place) s (some code) h = h

  step-Inv :
      (d0 : Disk) (bound : ℕ) (e : Event) (s : Service)
      → Inv d0 bound s
      → Inv d0 bound (step parse_pid m k e s)
  unfolding step
  step-Inv d0 bound e s h = step_of-Inv d0 bound e s s.exit_code h

  run-Inv :
      (d0 : Disk) (bound : ℕ) (es : List Event) (s : Service)
      → Inv d0 bound s
      → Inv d0 bound (run parse_pid m k es s)
  unfolding run
  run-Inv d0 bound [] s h = h
  run-Inv d0 bound (e ∷ es) s h =
      run-Inv d0 bound es (step parse_pid m k e s) (step-Inv d0 bound e s h)

  -- What the exit code says of the lock.
  abbrev pub Ending : Site → Service → Option ℕ → Type 0
  Ending site s none = s.disk ≡ site.home.disk
  Ending site s (some zero) = get session_lock_filename s.disk.files ≡ none
  Ending site s (some (suc code)) = s.disk ≡ site.home.disk

  Inv-Ending :
      (bound : ℕ) (site : Site) (s : Service)
      → IsMine parse_pid m site.home.disk
      → Inv site.home.disk bound s
      → Ending site s s.exit_code
  Inv-Ending bound site s mine h = go s.exit_code h.0
    where
      go : (code : Option ℕ) → DiskAt site.home.disk code s.disk → Ending site s code
      go none same = same
      go (some zero) same =
          ap (λ (d : Disk). get session_lock_filename d.files) same
          ∙ given_back-IsMine parse_pid m site.home.disk mine
      go (some (suc code)) same = same

  serving-Inv :
      (bound : ℕ) (site : Site) (es : List Event)
      → Inv site.home.disk bound (run parse_pid m k es (serving parse_pid m k bound site))
  serving-Inv bound site es =
      run-Inv site.home.disk bound es (serving parse_pid m k bound site) (refl, refl, refl)

  -- A service that listens and owns the session keeps the lock, whatever happens to it, until it ends; where
  -- it ends with the code 0, the lock is gone, and where a second signal ends it, with another code, the lock
  -- is still there. The lock can be read and removed.
  pub run-Ending :
      (es : List Event) (bound : ℕ) (site : Site)
      → IsMine parse_pid m site.home.disk
      → Ending site
          (run parse_pid m k es (serving parse_pid m k bound site))
          (run parse_pid m k es (serving parse_pid m k bound site)).exit_code
  run-Ending es bound site mine =
      Inv-Ending bound site (run parse_pid m k es (serving parse_pid m k bound site)) mine
        (serving-Inv bound site es)

  finish :
      (d0 : Disk) (bound : ℕ) (s : Service) (watching down : Bool) (code : Option ℕ)
      → code ≡ none
      → Inv d0 bound (state s.place s.disk s.bound_ino watching down code)
      → is_gone parse_pid m k s.place bound ≡ true
      → k.unlink_fails ≡ false
      → let t =
          run parse_pid m k
            (tick ∷ drained ∷ [])
            (state s.place s.disk s.bound_ino watching down code) in
        (t.exit_code ≡ some 0) × (t.place ≡ none)
  unfolding run
  finish d0 bound s watching down (some code) alive h gone free = cc
  finish d0 bound s true true none alive (same, quiet, i) gone free = cc
  finish d0 bound s false false none alive (same, quiet, i) gone free = cc
  finish d0 bound s false true none alive (same, quiet, i) gone free = (refl, rw free refl)
  finish d0 bound s true false none alive (same, quiet, i) gone free =
      rw (i, gone) (refl, rw free refl)

  -- A service whose socket is gone, the path being empty, unreadable or taken by something else, does not stay:
  -- whatever happened to it before, unless it has ended, the next tick of the watchdog and the end of the
  -- transfers end it with the code 0, and then the lock is gone and the path is empty. The lock and the path
  -- can be removed, and the lock can be read.
  pub run-gone :
      (es : List Event) (bound : ℕ) (site : Site)
      → IsMine parse_pid m site.home.disk
      → k.unlink_fails ≡ false
      → (run parse_pid m k es (serving parse_pid m k bound site)).exit_code ≡ none
      → is_gone parse_pid m k (run parse_pid m k es (serving parse_pid m k bound site)).place bound
        ≡ true
      → let s =
          run parse_pid m k
            (tick ∷ drained ∷ [])
            (run parse_pid m k es (serving parse_pid m k bound site)) in
        (s.exit_code ≡ some 0) × (get session_lock_filename s.disk.files ≡ none) × (s.place ≡ none)
  run-gone es bound site mine unlinks alive gone =
      let s = run parse_pid m k es (serving parse_pid m k bound site) in
      let h = serving-Inv bound site es in
      let (ends, empty) =
        finish site.home.disk bound s s.watching s.shutting_down s.exit_code alive h gone unlinks in
      let t = run parse_pid m k (tick ∷ drained ∷ []) s in
      (
        ends,
        rw ends at
            (Inv-Ending bound site t mine (run-Inv site.home.disk bound (tick ∷ drained ∷ []) s h)),
        empty,
      )
