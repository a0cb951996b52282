-- ===== src/Propfind/Tests.antt =====
-- The XML escape at a concrete text.
use rclone_proton_drive_webd.Base.{◌≡◌, refl, none, some, [], ◌∷◌, All, arith}
use rclone_proton_drive_webd.Base.Text.{Text, codes, text_dec}
use rclone_proton_drive_webd.Propfind.{xml_escape, replace_all}
use rclone_proton_drive_webd.Propfind.Escape.{NotMarkup, between, read_xml, xml_escape_sound}

abbrev name : Text
name = codes "a<b> & \"c\""

escaped : xml_escape name ≡ codes "a&lt;b&gt; &amp; &quot;c&quot;"
unfolding xml_escape replace_all
escaped = refl

xml_escape_sound_example :
    All NotMarkup (xml_escape name) × (read_xml between (xml_escape name) ≡ some name)
xml_escape_sound_example = xml_escape_sound name (unfold text_dec in ground arith)

-- A control character and a carriage return pass the escape: the first is no XML, and the second is read
-- as a line feed.
unread :
    (read_xml between (xml_escape (1 ∷ [])) ≡ none)
    × (read_xml between (xml_escape (13 ∷ [])) ≡ some (10 ∷ []))
unfolding xml_escape replace_all read_xml
unread = (refl, refl)
