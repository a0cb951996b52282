-- ===== src/Propfind/Escape.antt =====
-- Escaped text holds no markup, and reads back.
use rclone_proton_drive_webd.Base.{
  ℕ, ◌≡◌, ◌≢◌, refl, ◌∙◌, ap, Bool, true, ◌&&◌, ◌||◌, leb, Option, none, some, [], ◌∷◌, ◌++◌, arith,
  ◌==◌, if◌then◌else◌, All, All-append,
}
use rclone_proton_drive_webd.Base.Text.{Text, codes, text_dec, ◌===◌}
use rclone_proton_drive_webd.Propfind.{xml_escape}

-- What becomes of one character.
abbrev pub escape_char : ℕ → Text
escape_char c =
    if c == b'&'
    then codes "&amp;"
    else if c == b'<'
    then codes "&lt;"
    else if c == b'>'
    then codes "&gt;"
    else if c == b'"'
    then codes "&quot;"
    else c ∷ []

-- The four passes over the text are one pass.
xml_escape-cons : (c : ℕ) (s : Text) → xml_escape (c ∷ s) ≡ escape_char c ++ xml_escape s
unfolding xml_escape
xml_escape-cons c s = ground arith

xml_escape-nil : xml_escape [] ≡ []
unfolding xml_escape
xml_escape-nil = refl

-- A character that starts or ends markup, or an attribute's value.
abbrev pub NotMarkup : ℕ → Type 0
NotMarkup c = (c ≢ b'<') × (c ≢ b'>') × (c ≢ b'"')

escape_char-NotMarkup : (c : ℕ) → All NotMarkup (escape_char c)
escape_char-NotMarkup c = ground arith

xml_escape-NotMarkup : (s : Text) → All NotMarkup (xml_escape s)
xml_escape-NotMarkup [] = rw xml_escape-nil tt
xml_escape-NotMarkup (c ∷ s) = rw xml_escape-cons (
    All-append NotMarkup (escape_char c) (xml_escape s) (escape_char-NotMarkup c)
      (xml_escape-NotMarkup s))

-- `Char` of XML 1.0.
abbrev pub is_xml_char : ℕ → Bool
is_xml_char c =
    (c == 9)
    || (c == 10)
    || (c == 13)
    || (leb 32 c && leb c 55295)
    || (leb 57344 c && leb c 65533)
    || (leb 65536 c && leb c 1114111)

-- Where a reader of character data is: between characters, behind a carriage return, or in the name of
-- an entity.
pub data Reading : Type 0 where
  between returned : Reading
  named : Text → Reading

abbrev entity : Text → Option ℕ
entity name =
    if name === codes "amp"
    then some b'&'
    else if name === codes "lt"
    then some b'<'
    else if name === codes "gt"
    then some b'>'
    else if name === codes "quot"
    then some b'"'
    else if name === codes "apos"
    then some b'\''
    else none

abbrev read_before : ℕ → Option Text → Option Text
read_before c none = none
read_before c (some s) = some (c ∷ s)

abbrev read_entity : Option ℕ → Option Text → Option Text
read_entity none rest = none
read_entity (some c) rest = read_before c rest

-- The character data that an XML 1.0 reader gets from a text, if it is well-formed: the five predefined
-- entities, a line feed for each line end that has a carriage return, and no character that is not a
-- `Char`. References by number and the end of a CDATA section, which the service does not write, are left
-- out.
unfoldable pub read_xml : Reading → Text → Option Text
read_xml between [] = some []
read_xml returned [] = some []
read_xml (named name) [] = none
read_xml between (c ∷ s) =
    let rest = read_xml between s in
    let opened = read_xml (named []) s in
    let line = read_xml returned s in
    if c == b'&'
    then opened
    else if c == b'<'
    then none
    else if c == 13
    then read_before 10 line
    else if is_xml_char c
    then read_before c rest
    else none
read_xml returned (c ∷ s) =
    let rest = read_xml between s in
    let opened = read_xml (named []) s in
    let line = read_xml returned s in
    if c == 10
    then rest
    else if c == b'&'
    then opened
    else if c == b'<'
    then none
    else if c == 13
    then read_before 10 line
    else if is_xml_char c
    then read_before c rest
    else none
read_xml (named name) (c ∷ s) =
    let rest = read_xml between s in
    let longer = read_xml (named (name ++ c ∷ [])) s in
    if c == b';' then read_entity (entity name) rest else longer

read_xml-nil : read_xml between [] ≡ some []
unfolding read_xml
read_xml-nil = refl

-- A character that XML can hold as it is.
abbrev pub IsXmlText : ℕ → Type 0
IsXmlText c = (is_xml_char c ≡ true) × (c ≢ 13)

read_xml-escape_char :
    (c : ℕ) (s : Text)
    → IsXmlText c
    → read_xml between (escape_char c ++ s) ≡ read_before c (read_xml between s)
unfolding read_xml text_dec
read_xml-escape_char c s (char, plain) = ground (arith, char)

read_xml-xml_escape : (s : Text) → All IsXmlText s → read_xml between (xml_escape s) ≡ some s
read_xml-xml_escape [] h = rw xml_escape-nil read_xml-nil
read_xml-xml_escape (c ∷ s) (h, hs) =
    rw xml_escape-cons
      (read_xml-escape_char c (xml_escape s) h ∙ ap (read_before c) (read_xml-xml_escape s hs))

-- Escaped text holds none of `<`, `>` and `"`, and where each of its characters is one that XML 1.0
-- allows, and none a carriage return, a reader of XML character data gets the text back from it.
pub xml_escape_sound :
    (s : Text)
    → All IsXmlText s
    → All NotMarkup (xml_escape s) × (read_xml between (xml_escape s) ≡ some s)
xml_escape_sound s h = (xml_escape-NotMarkup s, read_xml-xml_escape s h)
