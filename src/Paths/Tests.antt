-- ===== src/Paths/Tests.antt =====
-- Paths at concrete inputs.
use rclone_proton_drive_webd.Base.{◌≡◌, refl, true, false, [], arith}
use rclone_proton_drive_webd.Base.Text.{Text, codes, text_dec, includes_char, ends_with_char}
use rclone_proton_drive_webd.Paths.{
  join_parts, segments, normalize, is_root, base_name, parent_path, join, decode, encode_href,
  is_safe_segment,
}
use rclone_proton_drive_webd.Paths.Segments.{IsSegment}
use rclone_proton_drive_webd.Paths.Href.{normalize-decode-encode_href}

paths : Unit {0}
unfolding segments normalize is_root base_name parent_path join decode encode_href is_safe_segment
    text_dec includes_char ends_with_char join_parts
paths = tt

abbrev messy : Text
messy = codes "a/./b//c d.txt/"

normal : (normalize messy ≡ codes "/a/b/c d.txt") × (normalize [] ≡ codes "/")
unfolding paths
normal = (refl, refl)

parts :
    (base_name messy ≡ codes "c d.txt")
    × (parent_path messy ≡ codes "/a/b")
    × (parent_path (codes "/a") ≡ codes "/")
    × (parent_path (codes "/") ≡ codes "/")
    × (join (codes "/") (codes "x") ≡ codes "/x")
unfolding paths
parts = (refl, refl, refl, refl, refl)

hrefs :
    (encode_href messy ≡ codes "/a/b/c%20d.txt/")
    × (encode_href (codes "//") ≡ codes "/")
    × (encode_href (codes "/é€") ≡ codes "/%C3%A9%E2%82%AC")
    × (decode (codes "/%c3%A9%E2%82%AC%F0%9F%98%80") ≡ codes "/é€😀")
    × (decode (codes "/100%") ≡ codes "/100%")
    × (decode (codes "/%C0%AF") ≡ codes "/%C0%AF")
unfolding paths
hrefs = (refl, refl, refl, refl, refl, refl)

unsafe :
    (is_safe_segment (codes "..") ≡ false)
    × (is_safe_segment (codes "a/b") ≡ false)
    × (is_safe_segment (codes "...") ≡ true)
unfolding paths
unsafe = (refl, refl, refl)

abbrev name : Text
name = codes "é"

name-IsSegment : IsSegment name
name-IsSegment = (omega arith, λ e. cc, λ e. cc)

normalize-decode-encode_href_example :
    normalize (decode (encode_href (codes "/%2e é/€/"))) ≡ normalize (codes "/%2e é/€/")
normalize-decode-encode_href_example =
    normalize-decode-encode_href (codes "/%2e é/€/") (ground arith)
