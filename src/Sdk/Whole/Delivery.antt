-- ===== src/Sdk/Whole/Delivery.antt =====
-- What a client of `readWhole` of src/service/sdkGateway.ts can take for a file.
use rclone_proton_drive_webd.Base.{
  ℕ, ◌+◌, ◌-◌, ◌≡◌, ◌≢◌, ◌⊎◌, refl, sym, ◌∙◌, ap, inl, inr, Bool, true, false, ◌&&◌, ◌||◌, ◌==◌,
  Option, List, [], ◌∷◌, ◌++◌, if◌then◌else◌, length, length-append, append_assoc, append-nil,
  Bool-cases, arith,
}
use rclone_proton_drive_webd.Base.Text.{Text}
use rclone_proton_drive_webd.Gateway.{Bytes, Thrown, concat}
use rclone_proton_drive_webd.Sdk.Errors.{map_generic_error}
use rclone_proton_drive_webd.Sdk.Whole.{
  Commit, pending, resolved, rejected, Body, readable, closed, cancelled, errored, Transfer, Event,
  chunk, taken, pull, cancel, signal, completed, failed, begun, fail, write, differs, on_completion,
  react, read_whole, close_body, commit_resolve, cancel_body,
}

-- There is a response only once the first chunk is there.
abbrev pub Started : Commit → List Bytes → Type 0
Started pending chunks = chunks ≡ []
Started resolved chunks = chunks ≢ []
Started (rejected e) chunks = ⊥

-- A failure before the first chunk is an error in place of a response, and a later one breaks the body.
abbrev pub Failed : Commit → List Bytes → Thrown → Type 0
Failed pending chunks e = ⊥
Failed resolved chunks e = chunks ≢ []
Failed (rejected f) chunks e = (chunks ≡ []) × (f ≡ e)

module _ (sha1_hex : Bytes → Text) (path : Text) (expected_sha1 : Option Text)
    (sha1_verified : Bool) (total_size : ℕ) where
  -- The body holds the whole file, which has its digest where the digest is a verified one.
  abbrev pub IsWhole : List Bytes → Type 0
  IsWhole chunks =
      (length (concat chunks) ≡ total_size)
      × ((differs sha1_hex path expected_sha1 sha1_verified total_size expected_sha1
              (sha1_hex (concat chunks))
            && sha1_verified)
          ≡ false)

  abbrev pub ByBody : Body → Commit → List Bytes → Bool → Type 0
  ByBody readable c chunks over = Started c chunks × (over ≡ false)
  ByBody closed c chunks over = (c ≡ resolved) × IsWhole chunks
  ByBody (errored e) c chunks over = Failed c chunks e
  ByBody cancelled c chunks over = Unit

  abbrev pub Delivered : Transfer → Type 0
  Delivered t = ByBody t.body t.commit t.chunks t.over

  -- What was enqueued is what was hashed and counted, while nobody cancels.
  abbrev pub Counted : Body → Transfer → Type 0
  Counted cancelled t = Unit
  Counted readable t = (concat t.chunks ≡ t.hashed) × (t.produced ≡ length t.hashed)
  Counted closed t = (concat t.chunks ≡ t.hashed) × (t.produced ≡ length t.hashed)
  Counted (errored e) t = (concat t.chunks ≡ t.hashed) × (t.produced ≡ length t.hashed)

  abbrev Inv : Transfer → Type 0
  Inv t =
      Delivered t × Counted t.body t × (t.over ≡ false → (t.body ≡ readable) ⊎ (t.body ≡ cancelled))

  abbrev at_end : Body → Commit → Transfer → Transfer
  at_end b c t = record t { body = b; commit = c }

  fail-Inv :
      (e : Thrown) (t : Transfer) (b : Body) (c : Commit)
      → Inv (at_end b c t)
      → t.over ≡ false
      → Inv (fail e (at_end b c t))
  fail-Inv e t readable pending ((none', _), counted, alive) fresh =
      ((none', refl), counted, λ h. cc)
  fail-Inv e t readable resolved ((some', _), counted, alive) fresh = (some', counted, λ h. cc)
  fail-Inv e t readable (rejected f) (h, counted, alive) fresh = absurd h.0
  fail-Inv e t cancelled c h fresh = (tt, tt, λ h. inr refl)
  fail-Inv e t closed c (h, counted, alive) fresh = elim (alive fresh) [ inl e ↦ cc | inr e ↦ cc ]
  fail-Inv e t (errored f) c (h, counted, alive) fresh = elim (alive fresh) [
    | inl e ↦ cc
    | inr e ↦ cc
  ]

  concat-snoc : (cs : List Bytes) (b : Bytes) → concat (cs ++ b ∷ []) ≡ concat cs ++ b
  concat-snoc [] b = append-nil b
  concat-snoc (c ∷ cs) b = ap (λ x. c ++ x) (concat-snoc cs b) ∙ sym (append_assoc c (concat cs) b)

  snoc-ne-nil : (cs : List Bytes) (b : Bytes) → (cs ++ b ∷ []) ≢ []
  snoc-ne-nil [] b e = cc
  snoc-ne-nil (c ∷ cs) b e = cc

  counted_more :
      (b : Bytes) (t : Transfer)
      → (concat t.chunks ≡ t.hashed) × (t.produced ≡ length t.hashed)
      → (concat (t.chunks ++ b ∷ []) ≡ t.hashed ++ b)
        × (t.produced + length b ≡ length (t.hashed ++ b))
  counted_more b t (same, count) = (
    concat-snoc t.chunks b ∙ ap (λ x. x ++ b) same,
    ap (λ (n : ℕ). n + length b) count ∙ sym (length-append t.hashed b),
  )

  write-Inv :
      (bytes : Bytes) (t : Transfer) (b : Body) (c : Commit)
      → Inv (at_end b c t)
      → t.over ≡ false
      → Inv (write bytes (at_end b c t))
  write-Inv bytes t readable pending (h, counted, alive) fresh =
      ((snoc-ne-nil t.chunks bytes, fresh), counted_more bytes t counted, λ h. inl refl)
  write-Inv bytes t readable resolved (h, counted, alive) fresh =
      ((snoc-ne-nil t.chunks bytes, fresh), counted_more bytes t counted, λ h. inl refl)
  write-Inv bytes t readable (rejected f) (h, counted, alive) fresh = absurd h.0
  write-Inv bytes t cancelled c h fresh = (tt, tt, λ h. inr refl)
  write-Inv bytes t closed c (h, counted, alive) fresh = elim (alive fresh) [
    | inl e ↦ cc
    | inr e ↦ cc
  ]
  write-Inv bytes t (errored f) c (h, counted, alive) fresh = elim (alive fresh) [
    | inl e ↦ cc
    | inr e ↦ cc
  ]

  abbrev wrong : Bytes → Bool
  wrong bytes =
      differs sha1_hex path expected_sha1 sha1_verified total_size expected_sha1 (sha1_hex bytes)
      && sha1_verified

  close-Inv :
      (t : Transfer) (b : Body) (c : Commit)
      → Inv (at_end b c t)
      → t.over ≡ false
      → t.produced ≡ total_size
      → wrong t.hashed ≡ false
      → Inv (record t { body = close_body b; commit = commit_resolve c; over = true })
  close-Inv t readable pending (h, (same, count), alive) fresh size right =
      ((refl, rw same (sym count ∙ size, right)), (same, count), λ h. cc)
  close-Inv t readable resolved (h, (same, count), alive) fresh size right =
      ((refl, rw same (sym count ∙ size, right)), (same, count), λ h. cc)
  close-Inv t readable (rejected f) (h, counted, alive) fresh size right = absurd h.0
  close-Inv t cancelled c h fresh size right = (tt, tt, λ h. inr refl)
  close-Inv t closed c (h, counted, alive) fresh size right = elim (alive fresh) [
    | inl e ↦ cc
    | inr e ↦ cc
  ]
  close-Inv t (errored f) c (h, counted, alive) fresh size right = elim (alive fresh) [
    | inl e ↦ cc
    | inr e ↦ cc
  ]

  on_completion-Inv :
      (t : Transfer)
      → Inv t
      → t.over ≡ false
      → Inv (on_completion sha1_hex path expected_sha1 sha1_verified total_size t)
  on_completion-Inv t h fresh = elim (Bool-cases (t.produced == total_size)) [
    | inr short ↦ rw short (fail-Inv _ t t.body t.commit h fresh)
    | inl full ↦ elim (Bool-cases (wrong t.hashed)) [
      | inl bad ↦ rw (full, bad) (fail-Inv _ t t.body t.commit h fresh)
      | inr right ↦
          rw (full, right) (close-Inv t t.body t.commit h fresh (ground (arith, full)) right)
    ]
  ]

  release-Inv :
      (t : Transfer) (b : Body)
      → Inv (record t { body = b })
      → Inv (record t { body = cancel_body b })
  release-Inv t readable h = (tt, tt, λ _. inr refl)
  release-Inv t closed h = h
  release-Inv t cancelled h = h
  release-Inv t (errored e) h = h

  kept_count :
      (t : Transfer) (b : Body) (q : ℕ) (p a : Bool)
      → Counted b t
      → Counted b (record t { queued = q; parked = p; aborted = a })
  kept_count t readable q p a h = h
  kept_count t closed q p a h = h
  kept_count t cancelled q p a h = h
  kept_count t (errored e) q p a h = h

  if-Inv : (b : Bool) (t u : Transfer) → Inv t → (b ≡ false → Inv u) → Inv (if b then t else u)
  if-Inv true t u h k = h
  if-Inv false t u h k = k refl

  react-Inv :
      (e : Event) (t : Transfer)
      → Inv t
      → Inv (react sha1_hex path expected_sha1 sha1_verified total_size e t)
  react-Inv (chunk bytes) t h =
      if-Inv (t.parked || t.over) t (write bytes t) h
        (λ go. write-Inv bytes t t.body t.commit h (ground (arith, go)))
  react-Inv (taken n) t (d, c, a) = (d, kept_count t t.body (t.queued - n) t.parked t.aborted c, a)
  react-Inv pull t (d, c, a) = (d, kept_count t t.body t.queued false t.aborted c, a)
  react-Inv cancel t h =
      let (d, c, a) = release-Inv t t.body h in
      (
        d,
        kept_count (record t { body = cancel_body t.body }) (cancel_body t.body) t.queued false true
            c,
        a,
      )
  react-Inv signal t (d, c, a) = (d, kept_count t t.body t.queued false true c, a)
  react-Inv completed t h =
      if-Inv (t.parked || t.over) t
        (on_completion sha1_hex path expected_sha1 sha1_verified total_size t) h
        (λ go. on_completion-Inv t h (ground (arith, go)))
  react-Inv (failed e) t h =
      if-Inv t.over t (fail (map_generic_error e) t) h
        (λ fresh. fail-Inv (map_generic_error e) t t.body t.commit h fresh)

  read_whole-Inv :
      (es : List Event) (t : Transfer)
      → Inv t
      → Inv (read_whole sha1_hex path expected_sha1 sha1_verified total_size es t)
  unfolding read_whole
  read_whole-Inv [] t h = h
  read_whole-Inv (e ∷ es) t h = read_whole-Inv es _ (react-Inv e t h)

  -- Whatever the order of the events, unless the reader cancels the body. The body can be read while no end
  -- of the download was seen, and there is a response only once the first chunk is there. The body ends
  -- well only when it holds as many bytes as the file has, with the claimed digest where that is a verified
  -- one, and then there is a response. A failure before the first chunk is an error in place of the
  -- response, and a later one ends the body with an error.
  pub read_whole-Delivered :
      (es : List Event)
      → Delivered (read_whole sha1_hex path expected_sha1 sha1_verified total_size es begun)
  read_whole-Delivered es = (read_whole-Inv es begun ((refl, refl), (refl, refl), λ _. inl refl)).0
