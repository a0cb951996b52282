-- ===== src/Sdk/Whole.antt =====
-- `readWhole` of src/service/sdkGateway.ts: the download of a whole file as a run of events on the streams
-- between the SDK and the response.
pub mod Delivery
use rclone_proton_drive_webd.Base.{
  ℕ, ◌+◌, ◌-◌, Bool, true, false, not, ◌&&◌, ◌||◌, ◌==◌, leb, Option, none, some, List, [], ◌∷◌,
  ◌++◌, if◌then◌else◌, length,
}
use rclone_proton_drive_webd.Base.Text.{Text, codes, ◌===◌}
use rclone_proton_drive_webd.Number.{decimal}
use rclone_proton_drive_webd.Gateway.{Bytes, Thrown, integrity_failed_error}
use rclone_proton_drive_webd.Sdk.Errors.{SdkError, map_generic_error}

-- The promise that `readWhole` waits for before there is a response, and the stream that is its body.
pub data Commit : Type 0 where
  pending resolved : Commit
  rejected : Thrown → Commit

pub data Body : Type 0 where
  readable closed cancelled : Body
  errored : Thrown → Body

-- What was hashed and counted, the chunks that were enqueued and the bytes that nobody has taken, whether
-- the producer waits, whether the download was aborted, and whether its completion has been seen.
pub record Transfer : Type 0 where
  pub hashed : Bytes
  pub produced : ℕ
  pub chunks : List Bytes
  pub queued : ℕ
  pub commit : Commit
  pub body : Body
  pub parked : Bool
  pub aborted : Bool
  pub over : Bool

-- The SDK writes a chunk, the reader takes bytes, the stream asks for more, its reader or the request's
-- signal cancels, the download completes or fails.
pub data Event : Type 0 where
  chunk : Bytes → Event
  taken : ℕ → Event
  pull cancel signal completed : Event
  failed : SdkError → Event

-- 8 * 1024 * 1024
abbrev pub high_water_mark : ℕ
high_water_mark = 8388608

abbrev pub begun : Transfer
begun = record {
  hashed = [];
  produced = 0;
  chunks = [];
  queued = 0;
  commit = pending;
  body = readable;
  parked = false;
  aborted = false;
  over = false;
}

abbrev pub commit_resolve : Commit → Commit
commit_resolve pending = resolved
commit_resolve resolved = resolved
commit_resolve (rejected e) = rejected e

abbrev pub commit_reject : Thrown → Commit → Commit
commit_reject e pending = rejected e
commit_reject e resolved = resolved
commit_reject e (rejected f) = rejected f

-- The calls `error` and `close` of the body's controller, on a body that has ended as well.
abbrev pub error_body : Thrown → Body → Body
error_body e readable = errored e
error_body e closed = closed
error_body e cancelled = cancelled
error_body e (errored f) = errored f

abbrev pub close_body : Body → Body
close_body readable = closed
close_body closed = closed
close_body cancelled = cancelled
close_body (errored f) = errored f

abbrev pub fail : Thrown → Transfer → Transfer
fail e t = record t { commit = commit_reject e t.commit; body = error_body e t.body; over = true }

abbrev pub enqueue : Bytes → Body → Transfer → Transfer
enqueue bytes readable t = record t {
  chunks = t.chunks ++ bytes ∷ [];
  queued = t.queued + length bytes;
  commit = commit_resolve t.commit;
  parked = leb high_water_mark (t.queued + length bytes);
}
enqueue bytes closed t = t
enqueue bytes cancelled t = t
enqueue bytes (errored e) t = t

-- `write` of the stream that the SDK fills. `enqueue` throws on a body that was cancelled.
abbrev pub write : Bytes → Transfer → Transfer
write bytes t =
    enqueue bytes t.body
      (record t { hashed = t.hashed ++ bytes; produced = t.produced + length bytes })

-- `release`
abbrev pub release : Transfer → Transfer
release t = record t { aborted = true; parked = false }

abbrev pub cancel_body : Body → Body
cancel_body readable = cancelled
cancel_body closed = closed
cancel_body cancelled = cancelled
cancel_body (errored e) = errored e

module _ (sha1_hex : Bytes → Text) (path : Text) (expected_sha1 : Option Text)
    (sha1_verified : Bool) (total_size : ℕ) where
  abbrev pub differs : Option Text → Text → Bool
  differs none actual = false
  differs (some []) actual = false
  differs (some (c ∷ s)) actual = not (actual === (c ∷ s))

  abbrev pub size_error : ℕ → Thrown
  size_error produced = integrity_failed_error (
      path
      ++ (codes ": size mismatch, got "
          ++ (decimal produced ++ (codes ", expected " ++ decimal total_size))))

  abbrev pub sha1_error : Thrown
  sha1_error =
      integrity_failed_error (path ++ codes ": SHA-1 mismatch against verified claimed digest")

  -- The handler of the completion.
  abbrev pub on_completion : Transfer → Transfer
  on_completion t =
      if not (t.produced == total_size)
      then fail (size_error t.produced) t
      else if differs expected_sha1 (sha1_hex t.hashed) && sha1_verified
      then fail sha1_error t
      else record t { commit = commit_resolve t.commit; body = close_body t.body; over = true }

  -- The SDK writes one chunk after another, and is done once.
  abbrev pub react : Event → Transfer → Transfer
  react (chunk bytes) t = if t.parked || t.over then t else write bytes t
  react (taken n) t = record t { queued = t.queued - n }
  react pull t = record t { parked = false }
  react cancel t = release (record t { body = cancel_body t.body })
  react signal t = release t
  react completed t = if t.parked || t.over then t else on_completion t
  react (failed e) t = if t.over then t else fail (map_generic_error e) t

  unfoldable pub read_whole : List Event → Transfer → Transfer
  read_whole [] t = t
  read_whole (e ∷ es) t = read_whole es (react e t)
