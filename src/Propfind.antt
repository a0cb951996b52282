-- ===== src/Propfind.antt =====
-- src/service/propfind.ts: the XML of the multistatus replies.
pub mod Escape
mod Tests
use rclone_proton_drive_webd.Base.{
  ℕ, Bool, true, false, not, ◌&&◌, Option, none, some, List, [], ◌∷◌, ◌++◌, ◌==◌, if◌then◌else◌,
  is_empty,
}
use rclone_proton_drive_webd.Base.Text.{Text, codes, ends_with_char}
use rclone_proton_drive_webd.Gateway.{DriveEntry}
use rclone_proton_drive_webd.Paths.{slash, encode_href}
use rclone_proton_drive_webd.Number.{decimal}
use rclone_proton_drive_webd.HttpDate.{to_utc_string}

-- `s.replace(/c/g, by)` for one character.
unfoldable pub replace_all : ℕ → Text → Text → Text
replace_all c by [] = []
replace_all c by (x ∷ s) = (if x == c then by else x ∷ []) ++ replace_all c by s

unfoldable pub xml_escape : Text → Text
unfolding replace_all
xml_escape s = replace_all b'"' (codes "&quot;") (
    replace_all b'>' (codes "&gt;")
      (replace_all b'<' (codes "&lt;") (replace_all b'&' (codes "&amp;") s)))

-- `options.sha1` and the like in a condition: present and not empty.
abbrev pub truthy : Option Text → Bool
truthy none = false
truthy (some s) = not (is_empty s)

abbrev pub text_or_nil : Option Text → Text
text_or_nil none = []
text_or_nil (some s) = s

abbrev pub href_of : Text → DriveEntry → Text
href_of href entry = xml_escape (
    encode_href
      (if entry.is_dir && not (ends_with_char href slash) then href ++ slash ∷ [] else href))

abbrev pub checksums_of : DriveEntry → Text
checksums_of entry =
    if not entry.is_dir && truthy entry.sha1
    then codes "<oc:checksums><oc:checksum>SHA1:"
      ++ (text_or_nil entry.sha1 ++ codes "</oc:checksum></oc:checksums>")
    else codes "<oc:checksums/>"

abbrev pub content_length_of : DriveEntry → Text
content_length_of entry =
    if entry.is_dir
    then []
    else codes "<d:getcontentlength>" ++ (decimal entry.size ++ codes "</d:getcontentlength>")

unfoldable pub response_xml : Text → DriveEntry → Text
unfolding xml_escape encode_href ends_with_char decimal to_utc_string
response_xml href entry =
    codes "<d:response>\n  <d:href>"
    ++ (href_of href entry
        ++ (codes "</d:href>\n  <d:propstat>\n   <d:prop>\n    <d:displayname>"
            ++ (xml_escape entry.name
                ++ (codes "</d:displayname>\n    <d:getlastmodified>"
                    ++ (to_utc_string entry.mtime
                        ++ (codes "</d:getlastmodified>\n    "
                            ++ (content_length_of entry
                                ++ (codes "\n    <d:resourcetype>"
                                    ++ ((if entry.is_dir then codes "<d:collection/>" else [])
                                        ++ (codes "</d:resourcetype>\n    "
                                            ++ (checksums_of entry
                                                ++ codes
                                                    "\n    <oc:permissions>RDNVW</oc:permissions>\n   </d:prop>\n   <d:status>HTTP/1.1 200 OK</d:status>\n  </d:propstat>\n </d:response>")))))))))))

abbrev pub join_lines : List Text → Text
join_lines [] = []
join_lines (r ∷ []) = r
join_lines (r ∷ s ∷ rs) = r ++ (codes "\n " ++ join_lines (s ∷ rs))

unfoldable pub multistatus : List Text → Text
multistatus responses =
    codes
      "<?xml version=\"1.0\" encoding=\"utf-8\"?>\n<d:multistatus xmlns:d=\"DAV:\" xmlns:oc=\"http://owncloud.org/ns\" xmlns:nc=\"http://nextcloud.org/ns\">\n "
    ++ (join_lines responses ++ codes "\n</d:multistatus>\n")

abbrev pub available_text : Option ℕ → Text
available_text none = codes "-3"
available_text (some n) = decimal n

abbrev pub used_text : Option ℕ → Text
used_text none = []
used_text (some n) = codes "<d:quota-used-bytes>" ++ (decimal n ++ codes "</d:quota-used-bytes>")

unfoldable pub quota_multistatus : Text → Option ℕ → Option ℕ → Text
unfolding xml_escape encode_href decimal
quota_multistatus href used available =
    codes
      "<?xml version=\"1.0\" encoding=\"utf-8\"?>\n<d:multistatus xmlns:d=\"DAV:\">\n <d:response>\n  <d:href>"
    ++ (xml_escape (encode_href href)
        ++ (codes "</d:href>\n  <d:propstat>\n   <d:prop>\n    "
            ++ (used_text used
                ++ (codes "\n    <d:quota-available-bytes>"
                    ++ (available_text available
                        ++ codes
                            "</d:quota-available-bytes>\n   </d:prop>\n   <d:status>HTTP/1.1 200 OK</d:status>\n  </d:propstat>\n </d:response>\n</d:multistatus>\n")))))

unfoldable pub proppatch_multistatus : Text → Bool → Text
unfolding xml_escape encode_href
proppatch_multistatus href success =
    codes
      "<?xml version=\"1.0\" encoding=\"utf-8\"?>\n<d:multistatus xmlns:d=\"DAV:\" xmlns:oc=\"http://owncloud.org/ns\">\n <d:response>\n  <d:href>"
    ++ (xml_escape (encode_href href)
        ++ (codes "</d:href>\n  <d:propstat>\n   <d:prop><d:lastmodified/></d:prop>\n   <d:status>"
            ++ ((if success then codes "HTTP/1.1 200 OK" else codes "HTTP/1.1 403 Forbidden")
                ++ codes "</d:status>\n  </d:propstat>\n </d:response>\n</d:multistatus>\n")))
