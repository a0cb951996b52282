-- ===== src/Webdav/Range/Bounds.antt =====
-- What `parseRange` answers: a range inside the file, and the three forms of a header.
use rclone_proton_drive_webd.Base.{
  ℕ, ◌-◌, ◌<◌, ◌≤◌, ◌≡◌, refl, sym, ◌∙◌, ap, false, ◌&&◌, Option, none, some, [], ◌∷◌, ◌++◌, arith,
  ltb, leb, if◌then◌else◌, All, All-append, min, is_empty, append-nil,
}
use rclone_proton_drive_webd.Base.Text.{Text, codes}
use rclone_proton_drive_webd.Number.{is_space, read_digits, trim, trim_start, trim_end, decimal}
use rclone_proton_drive_webd.Number.Decimal.{
  IsDigits, decimal-IsDigits, decimal-cons, read_digits-decimal,
}
use rclone_proton_drive_webd.Webdav.Range.{
  RangeResult, bytes_range, unsatisfiable, span_digits, match_dash, match_end, match_range,
  digits_value, resolve_range, range_of_match, parse_range,
}

resolve_range_bounds :
    (start end total s e : ℕ)
    → resolve_range start end total ≡ bytes_range s e
    → (s ≤ e) × (e < total)
resolve_range_bounds start end total s e h = ground arith

range_of_match_bounds :
    (m : Option (Text × Text)) (total s e : ℕ)
    → range_of_match m total ≡ bytes_range s e
    → (s ≤ e) × (e < total)
range_of_match_bounds none total s e h = cc
range_of_match_bounds (some (a, b)) total s e h = resolve_range_bounds _ _ total s e h

-- A range that is answered lies inside the file and holds a byte, whatever the header.
pub parse_range_bounds :
    (h : Option Text) (total s e : ℕ)
    → parse_range h total ≡ bytes_range s e
    → (s ≤ e) × (e < total)
unfolding parse_range
parse_range_bounds none total s e h = cc
parse_range_bounds (some []) total s e h = cc
parse_range_bounds (some (c ∷ t)) total s e h = range_of_match_bounds _ total s e h

abbrev NoSpace : Text → Type 0
NoSpace s = All (λ c. is_space c ≡ false) s

trim_end_of_NoSpace : (s : Text) → NoSpace s → trim_end s ≡ s
unfolding trim_end
trim_end_of_NoSpace [] h = refl
trim_end_of_NoSpace (c ∷ []) (p, h) = rw p
trim_end_of_NoSpace (c ∷ d ∷ s) (p, h) = ground (arith, trim_end_of_NoSpace (d ∷ s) h)

trim_start_of_NoSpace : (s : Text) → NoSpace s → trim_start s ≡ s
unfolding trim_start
trim_start_of_NoSpace [] h = refl
trim_start_of_NoSpace (c ∷ s) (p, h) = rw p

trim_lem : (s : Text) → trim s ≡ trim_start (trim_end s)
unfolding trim
trim_lem s = refl

trim_of_NoSpace : (s : Text) → NoSpace s → trim s ≡ s
trim_of_NoSpace s h = rw (trim_lem s, trim_end_of_NoSpace s h) (trim_start_of_NoSpace s h)

IsDigits-NoSpace : (s : Text) → IsDigits s → NoSpace s
unfolding is_space
IsDigits-NoSpace [] h = tt
IsDigits-NoSpace (c ∷ s) (p, h) = (ground arith, IsDigits-NoSpace s h)

span_digits_of_IsDigits : (ds : Text) → IsDigits ds → span_digits ds ≡ (ds, [])
unfolding span_digits
span_digits_of_IsDigits [] h = refl
span_digits_of_IsDigits (c ∷ ds) (p, h) = rw (p, span_digits_of_IsDigits ds h)

span_digits-dash :
    (ds rest : Text) → IsDigits ds → span_digits (ds ++ b'-' ∷ rest) ≡ (ds, b'-' ∷ rest)
unfolding span_digits
span_digits-dash [] rest h = refl
span_digits-dash (c ∷ ds) rest (p, h) = rw (p, span_digits-dash ds rest h)

abbrev pub range_header : Text → Text → Text
range_header a b = codes "bytes=" ++ (a ++ b'-' ∷ b)

match_range_lem : (s : Text) → match_range (codes "bytes=" ++ s) ≡ match_dash (span_digits s)
unfolding match_range
match_range_lem s = refl

match_range-range_header :
    (a b : Text) → IsDigits a → IsDigits b → match_range (range_header a b) ≡ some (a, b)
match_range-range_header a b h k =
    match_range_lem (a ++ b'-' ∷ b)
    ∙ ap match_dash (span_digits-dash a b h)
    ∙ ap (match_end a) (span_digits_of_IsDigits b k)

range_header-NoSpace : (a b : Text) → IsDigits a → IsDigits b → NoSpace (range_header a b)
unfolding is_space
range_header-NoSpace a b h k =
    All-append (λ c. is_space c ≡ false) (codes "bytes=") (a ++ b'-' ∷ b)
      (refl, (refl, (refl, (refl, (refl, (refl, tt))))))
      (All-append (λ c. is_space c ≡ false) a (b'-' ∷ b) (IsDigits-NoSpace a h)
        (refl, IsDigits-NoSpace b k))

parse_range_lem :
    (c : ℕ) (s : Text) (total : ℕ)
    → parse_range (some (c ∷ s)) total ≡ range_of_match (match_range (trim (c ∷ s))) total
unfolding parse_range
parse_range_lem c s total = refl

parse_range-range_header :
    (a b : Text) (total : ℕ)
    → IsDigits a
    → IsDigits b
    → parse_range (some (range_header a b)) total ≡ range_of_match (some (a, b)) total
parse_range-range_header a b total h k =
    parse_range_lem _ _ total
    ∙ ap (λ t. range_of_match (match_range t) total)
        (trim_of_NoSpace (range_header a b) (range_header-NoSpace a b h k))
    ∙ ap (λ m. range_of_match m total) (match_range-range_header a b h k)

digits_value-decimal : (n : ℕ) → digits_value (decimal n) ≡ n
digits_value-decimal n =
    ap (λ t. (read_digits 0 t).0) (sym (append-nil (decimal n)))
    ∙ ap (λ p. p.0) (read_digits-decimal n [] refl)

is_empty-decimal : (n : ℕ) → is_empty (decimal n) ≡ false
is_empty-decimal n = let (d, s, e) = decimal-cons n in rw e

-- The answer that RFC 9110 asks for: the positions from `first` to `last` that the file has.
abbrev pub selected : ℕ → ℕ → ℕ → RangeResult
selected first last total =
    if ltb first total && leb first last
    then bytes_range first (min last (total - 1))
    else unsatisfiable

resolve_range-selected : (a b total : ℕ) → resolve_range a b total ≡ selected a b total
resolve_range-selected a b total = ground arith

-- `bytes=a-b` selects the positions a to b, `bytes=a-` those from a on, and `bytes=-n` the last n
-- (all of them in a shorter file); a selection without a byte of the file is unsatisfiable.
pub parse_range_forms :
    (a b n total : ℕ)
    → (parse_range (some (range_header (decimal a) (decimal b))) total ≡ selected a b total)
      × (parse_range (some (range_header (decimal a) [])) total ≡ selected a (total - 1) total)
      × (parse_range (some (range_header [] (decimal n))) total
          ≡ selected (total - n) (total - 1) total)
parse_range_forms a b n total = (
  parse_range-range_header (decimal a) (decimal b) total (decimal-IsDigits a) (decimal-IsDigits b)
      ∙ rw (is_empty-decimal a, is_empty-decimal b, digits_value-decimal a, digits_value-decimal b)
          (resolve_range-selected a b total),
  parse_range-range_header (decimal a) [] total (decimal-IsDigits a) tt
      ∙ rw (is_empty-decimal a, digits_value-decimal a)
          (resolve_range-selected a (total - 1) total),
  parse_range-range_header [] (decimal n) total tt (decimal-IsDigits n)
      ∙ rw (is_empty-decimal n, digits_value-decimal n)
          (resolve_range-selected (total - n) (total - 1) total),
)
