-- ===== src/Session/Store/Pruning.antt =====
-- `pruneMarkers` of `OwnedFileSessionStore` (src/service/sessionStore.ts).
use rclone_proton_drive_webd.Base.{
  ◌-◌, ◌≡◌, ◌≢◌, refl, sym, ◌∙◌, ap, ◌⊎◌, inl, inr, true, false, Option, none, some, List, [], ◌∷◌,
  arith, length, drop, min, All, length-drop, Option-cases, Bool-cases,
}
use rclone_proton_drive_webd.Base.Text.{Text, starts_with, text_dec}
use rclone_proton_drive_webd.Base.Map.{Map, get, NodupKeys, get-delete_self, get-delete_ne}
use rclone_proton_drive_webd.Session.Store.Unique.{
  sort-Unique, filter-Unique, keys-Unique, take-drop-apart,
}
use rclone_proton_drive_webd.Gateway.{Bytes}
use rclone_proton_drive_webd.Session.Disk.{
  regular, Entry, Disk, Code, Result, done, Act, return, continue, settled, Machine, unlink,
  readdir, keys, unlink_file, read_names, unless_fails,
}
use rclone_proton_drive_webd.Session.Disk.Laws.{unlink_file-cases, unlink_file-present}
use rclone_proton_drive_webd.Session.Store.{
  marker_prefix, remove_all, markers, outdated, prune_markers,
}
use rclone_proton_drive_webd.Session.Store.Markers.{
  sort-All, take-All, filter-All, sort-IsSorted, take-IsBelow-drop, IsBelow, Listed, sort-Listed,
  filter-Listed, Listed-take-drop,
}

true-ne-false : ¬ (true ≡ false)
true-ne-false h = cc

some-ne-none : (e : Entry) → some e ≢ none
some-ne-none e h = cc

module _ {Snapshot : Type 0} (parse_stored_snapshot : Bytes → Option Snapshot)
    (stringify : Snapshot → Text) (session_uid : Snapshot → Text) (marker_json : Text → Text → Text)
    (m : Machine) where
  abbrev unlinks : List Text → Act Disk (Unit {0})
  unlinks = remove_all parse_stored_snapshot stringify session_uid marker_json m

  abbrev unlinked : List Text → Disk → Disk
  unlinked names d = (unlinks names d).1

  abbrev gone_by : List Text → List Text
  gone_by = outdated parse_stored_snapshot stringify session_uid marker_json m

  abbrev unlink_one : Text → Disk → Disk
  unlink_one name d = (unlink_file m name d).1

  get-unlink_one :
      (q name : Text) (d : Disk) → q ≢ name → get q (unlink_one name d).files ≡ get q d.files
  get-unlink_one q name d ne = elim (unlink_file-cases m name d) [
    | inl (e, fails) ↦ ap (λ (r : Result (Unit {0}) × Disk). get q r.1.files) fails
    | inr fine ↦
        ap (λ (r : Result (Unit {0}) × Disk). get q r.1.files) fine
        ∙ get-delete_ne q name d.files ne
  ]

  unlinks_lem :
      (name : Text) (names : List Text) (d : Disk)
      → unlinks (name ∷ names) d ≡ unlinks names (unlink_one name d)
  unfolding remove_all
  unlinks_lem name names d = refl

  unlinks_nil : (d : Disk) → unlinks [] d ≡ (done tt, d)
  unfolding remove_all
  unlinks_nil d = refl

  unlinks_fine : (names : List Text) (d : Disk) → (unlinks names d).0 ≡ done tt
  unlinks_fine [] d = ap (λ (r : Result (Unit {0}) × Disk). r.0) (unlinks_nil d)
  unlinks_fine (name ∷ names) d =
      ap (λ (r : Result (Unit {0}) × Disk). r.0) (unlinks_lem name names d) ∙ unlinks_fine names _

  get-unlinks :
      (q : Text) (names : List Text) (d : Disk)
      → ¬ Listed q names
      → get q (unlinked names d).files ≡ get q d.files
  get-unlinks q [] d absent = ap (λ (r : Result (Unit {0}) × Disk). get q r.1.files) (unlinks_nil d)
  get-unlinks q (name ∷ names) d absent =
      ap (λ (r : Result (Unit {0}) × Disk). get q r.1.files) (unlinks_lem name names d)
      ∙ get-unlinks q names (unlink_one name d) (λ l. absent (inr l))
      ∙ get-unlink_one q name d (λ e. absent (inl e))

  -- Every call of `unlink` succeeds on a regular file.
  abbrev pub IsRemovable : Disk → Type 0
  IsRemovable d =
      ((q : Text) → m.fails unlink q ≡ none)
      × ((q : Text) (e : Entry) → get q d.files ≡ some e → e.kind ≡ regular)

  get-unlink_one_self :
      (name : Text) (d : Disk) → IsRemovable d → get name (unlink_one name d).files ≡ none
  get-unlink_one_self name d (free, kinds) = elim (Option-cases (get name d.files)) [
    | inr (e, here) ↦
        ap (λ (r : Result (Unit {0}) × Disk). get name r.1.files)
          (unlink_file-present m name d e (free name) here (kinds name e here))
        ∙ get-delete_self name d.files
    | inl gone ↦ elim (unlink_file-cases m name d) [
      | inl (e, fails) ↦ ap (λ (r : Result (Unit {0}) × Disk). get name r.1.files) fails ∙ gone
      | inr fine ↦
          ap (λ (r : Result (Unit {0}) × Disk). get name r.1.files) fine
          ∙ get-delete_self name d.files
    ]
  ]

  get-unlink_one_same :
      (q name : Text) (d : Disk) → q ≡ name → IsRemovable d → get q (unlink_one name d).files ≡ none
  get-unlink_one_same q name d e r = rw e (get-unlink_one_self name d r)

  unlink_one-none :
      (q name : Text) (d : Disk)
      → IsRemovable d
      → get q d.files ≡ none
      → get q (unlink_one name d).files ≡ none
  unlink_one-none q name d r gone = elim (text_dec q name) [
    | yes e ↦ get-unlink_one_same q name d e r
    | no ne ↦ get-unlink_one q name d ne ∙ gone
  ]

  unlink_one-IsRemovable :
      (name : Text) (d : Disk) → IsRemovable d → IsRemovable (unlink_one name d)
  unlink_one-IsRemovable name d (free, kinds) = (
    free,
    λ q e here. elim (text_dec q name) [
      | yes same ↦
          absurd (some-ne-none e (sym here ∙ get-unlink_one_same q name d same (free, kinds)))
      | no ne ↦ kinds q e (sym (get-unlink_one q name d ne) ∙ here)
    ],
  )

  unlinks-none :
      (q : Text) (names : List Text) (d : Disk)
      → IsRemovable d
      → (get q d.files ≡ none) ⊎ Listed q names
      → get q (unlinked names d).files ≡ none
  unlinks-none q [] d r (inl gone) =
      ap (λ (r : Result (Unit {0}) × Disk). get q r.1.files) (unlinks_nil d) ∙ gone
  unlinks-none q [] d r (inr l) = absurd l
  unlinks-none q (name ∷ names) d r h =
      ap (λ (r : Result (Unit {0}) × Disk). get q r.1.files) (unlinks_lem name names d)
      ∙ unlinks-none q names (unlink_one name d) (unlink_one-IsRemovable name d r) (elim h [
        | inl gone ↦ inl (unlink_one-none q name d r gone)
        | inr (inl e) ↦ inl (get-unlink_one_same q name d e r)
        | inr (inr l) ↦ inr l
      ])

  get-keys :
      (q : Text) (files : Map Entry) (e : Entry) → get q files ≡ some e → Listed q (keys m files)
  unfolding get
  get-keys q [] e h = cc
  get-keys q ((k, v) ∷ files) e h = elim (text_dec k q) [
    | yes same ↦ inl (sym same)
    | no differ ↦ inr (get-keys q files e (ground (arith, h)))
  ]

  abbrev pub pruned : Disk → Disk
  pruned d = (prune_markers parse_stored_snapshot stringify session_uid marker_json m d).1

  abbrev pub sorted_markers : Disk → List Text
  sorted_markers d =
      markers parse_stored_snapshot stringify session_uid marker_json m (keys m d.files)

  -- The last five markers of the directory.
  abbrev pub newest : Disk → List Text
  newest d = drop (length (sorted_markers d) - 5) (sorted_markers d)

  abbrev oldest : Disk → List Text
  oldest d = gone_by (keys m d.files)

  read_names_lem :
      (d : Disk) → m.fails readdir [] ≡ none → read_names m d ≡ (done (keys m d.files), d)
  unfolding read_names
  read_names_lem d free = rw free refl

  pruned_lem : (d : Disk) → m.fails readdir [] ≡ none → pruned d ≡ unlinked (oldest d) d
  unfolding prune_markers
  pruned_lem d free =
      ap
        (λ (r : Result (List Text) × Disk).
          (settled (continue (λ (names : List Text). unlinks (gone_by names)) r)).1)
        (read_names_lem d free)

  Listed-All : (P : Text → Type 0) (q : Text) (xs : List Text) → All P xs → Listed q xs → P q
  Listed-All P q [] h l = absurd l
  Listed-All P q (x ∷ xs) h (inl e) = rw e h.0
  Listed-All P q (x ∷ xs) h (inr l) = Listed-All P q xs h.1 l

  oldest-markers : (q : Text) (d : Disk) → Listed q (oldest d) → starts_with q marker_prefix ≡ true
  oldest-markers q d l =
      Listed-All (λ x. starts_with x marker_prefix ≡ true) q (oldest d)
        (take-All (λ x. starts_with x marker_prefix ≡ true) _ (sorted_markers d)
          (sort-All (λ x. starts_with x marker_prefix ≡ true) _
            (filter-All (λ n. starts_with n marker_prefix) (keys m d.files))))
        l

  oldest-IsBelow : (q : Text) (d : Disk) → Listed q (oldest d) → IsBelow q (newest d)
  oldest-IsBelow q d l =
      Listed-All (λ x. IsBelow x (newest d)) q (oldest d)
        (take-IsBelow-drop _ (sorted_markers d) (sort-IsSorted _)) l

  length-newest : (d : Disk) → length (newest d) ≡ min 5 (length (sorted_markers d))
  length-newest d = omega (arith, length-drop (length (sorted_markers d) - 5) (sorted_markers d))

  newest-kept :
      (q : Text) (d : Disk) → NodupKeys d.files → Listed q (oldest d) → ¬ Listed q (newest d)
  newest-kept q d u l =
      take-drop-apart _ q (sorted_markers d)
        (sort-Unique _ (
          filter-Unique (λ n. starts_with n marker_prefix) (keys m d.files)
            (keys-Unique m d.files u)))
        l

  -- Whatever fails, a file that is no marker stays.
  pub prune_markers-other :
      (q : Text) (d : Disk)
      → starts_with q marker_prefix ≡ false
      → get q (pruned d).files ≡ get q d.files
  unfolding prune_markers read_names
  prune_markers-other q d h = go (m.fails readdir [])
    where
      go :
          (f : Option Code)
          → get q
              (settled (
                continue
                  (λ (names : List Text). unlinks (gone_by names))
                  (unless_fails m f (return (keys m d.files)) d))).1.files
            ≡ get q d.files
      go (some c) = refl
      go none = get-unlinks q (oldest d) d (λ l. true-ne-false (sym (oldest-markers q d l) ∙ h))

  Listed_dec : (q : Text) (xs : List Text) → Dec (Listed q xs)
  Listed_dec q [] = no (λ l. l)
  Listed_dec q (x ∷ xs) = elim (text_dec q x) [
    | yes e ↦ yes (inl e)
    | no ne ↦ elim (Listed_dec q xs) [
      | yes l ↦ yes (inr l)
      | no nl ↦ no (λ h. elim h [ inl e ↦ ne e | inr l ↦ nl l ])
    ]
  ]

  newest-or-oldest :
      (q : Text) (d : Disk)
      → Listed q (keys m d.files)
      → starts_with q marker_prefix ≡ true
      → Listed q (oldest d) ⊎ Listed q (newest d)
  newest-or-oldest q d l h =
      Listed-take-drop _ q (sorted_markers d)
        (sort-Listed q _ (filter-Listed (λ n. starts_with n marker_prefix) q (keys m d.files) h l))

  -- What becomes of a name: one of the newest markers, or a file that is no marker, is as it was, and any
  -- other marker is gone, and if it was there, it comes before the newest ones.
  abbrev pub Pruned : Text → Disk → Type 0
  Pruned q d =
      ((get q (pruned d).files ≡ get q d.files)
        × ((starts_with q marker_prefix ≡ false) ⊎ Listed q (newest d)))
      ⊎ ((get q (pruned d).files ≡ none)
          × (starts_with q marker_prefix ≡ true)
          × (¬ Listed q (newest d))
          × ((get q d.files ≡ none) ⊎ IsBelow q (newest d)))

  -- Where the directory can be read and its files removed, and no name is listed twice, pruning the sign-out
  -- markers keeps the newest five by name, or all where there are fewer: each of these is as it was, every
  -- other marker is gone and comes before each of them, and no file that is no marker is touched.
  pub prune_markers-Pruned :
      (q : Text) (d : Disk)
      → m.fails readdir [] ≡ none
      → NodupKeys d.files
      → IsRemovable d
      → (length (newest d) ≡ min 5 (length (sorted_markers d))) × Pruned q d
  prune_markers-Pruned q d reads u r = (
    length-newest d,
    elim (Bool-cases (starts_with q marker_prefix)) [
      | inr other ↦ inl (prune_markers-other q d other, inl other)
      | inl marker ↦ elim (Listed_dec q (newest d)) [
        | yes kept ↦
            inl (files (get-unlinks q (oldest d) d (λ l. newest-kept q d u l kept)), inr kept)
        | no older ↦ elim (fate (Option-cases (get q d.files)) marker older) [
          | inl gone ↦
              inr (files (unlinks-none q (oldest d) d r (inl gone)), marker, older, inl gone)
          | inr l ↦ inr (
            files (unlinks-none q (oldest d) d r (inr l)),
            marker,
            older,
            inr (oldest-IsBelow q d l),
          )
        ]
      ]
    ],
  )
    where
      files :
          {o : Option Entry} → get q (unlinked (oldest d) d).files ≡ o → get q (pruned d).files ≡ o
      files h = ap (λ (d : Disk). get q d.files) (pruned_lem d reads) ∙ h

      fate :
          (get q d.files ≡ none) ⊎ ((e : Entry) × (get q d.files ≡ some e))
          → starts_with q marker_prefix ≡ true
          → ¬ Listed q (newest d)
          → (get q d.files ≡ none) ⊎ Listed q (oldest d)
      fate (inl gone) marker older = inl gone
      fate (inr (e, here)) marker older =
          elim (newest-or-oldest q d (get-keys q d.files e here) marker) [
            | inl l ↦ inr l
            | inr l ↦ absurd (older l)
          ]
