-- ===== src/Webdav/Http.antt =====
-- Requests and responses of src/service/webdav.ts, and how an error becomes a response.
use rclone_proton_drive_webd.Base.{ℕ, Bool, Option, [], ◌∷◌, ◌++◌}
use rclone_proton_drive_webd.Base.Text.{Text, codes}
use rclone_proton_drive_webd.Base.Map.{Map, get}
use rclone_proton_drive_webd.Gateway.{Stream, Thrown, gateway, foreign}
use rclone_proton_drive_webd.Propfind.{replace_all}

-- `pathname` is `new URL(req.url).pathname`; `headers` are named as the service asks for them;
-- `text` is what `req.text()` gives, empty where reading fails; `aborted` is the request's signal.
pub record Request : Type 0 where
  pub method : Text
  pub pathname : Text
  pub headers : Map Text
  pub body : Option Stream
  pub text : Text
  pub aborted : Bool

unfoldable pub header : Request → Text → Option Text
unfolding get
header req name = get name req.headers

pub data Body : Type 0 where
  no_body : Body
  text_body : Text → Body
  stream_body : Stream → Body

-- Of two headers with one name the later one counts.
pub record Response : Type 0 where
  pub status : ℕ
  pub headers : Map Text
  pub body : Body

abbrev pub dav_headers : Map Text
dav_headers = (codes "DAV", codes "1") ∷ (codes "MS-Author-Via", codes "DAV") ∷ []

abbrev pub dav_response : ℕ → Body → Map Text → Response
dav_response status body headers = record {
  status = status;
  headers = dav_headers ++ headers;
  body = body;
}

abbrev pub xml_ct : Map Text
xml_ct = (codes "Content-Type", codes "application/xml; charset=utf-8") ∷ []

unfoldable pub xml_text : Text → Text
unfolding replace_all
xml_text value =
    replace_all b'>' (codes "&gt;")
      (replace_all b'<' (codes "&lt;") (replace_all b'&' (codes "&amp;") value))

unfoldable pub error_to_response : Thrown → Response
unfolding xml_text
error_to_response (gateway err) =
    dav_response err.http_status
      (text_body (
        codes "<?xml version=\"1.0\"?><d:error xmlns:d=\"DAV:\"><d:message>"
        ++ (xml_text err.message ++ codes "</d:message></d:error>")))
      xml_ct
error_to_response foreign = dav_response 500 no_body []
