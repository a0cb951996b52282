-- ===== src/Sdk/Seek.antt =====
-- The ranged reads of src/service/sdkGateway.ts: `readRange` over the seekable stream of the SDK, and
-- `readRangeByFullRead` over a whole download.
pub mod Delivery
use rclone_proton_drive_webd.Base.{
  ℕ, ◌+◌, ◌-◌, Bool, true, false, Option, none, some, List, [], ◌∷◌, ◌++◌, ◌==◌, leb, if◌then◌else◌,
  length, take, drop, min, is_empty,
}
use rclone_proton_drive_webd.Gateway.{Bytes, concat}

-- What one `seekable.read`, the first one with the `seek` before it, answers: its bytes, none where
-- `value` is missing, and `done`; or an error.
pub data Reply : Type 0 where
  got : Bytes → Bool → Reply
  fails : Reply

-- How a body ends: closed, with an error, or not at all, where a reply is not given or holds nothing
-- and is not the last, after which the stream is not pulled again.
pub data End : Type 0 where
  closed errored waiting : End

abbrev pub push : Bytes → List Bytes × End → List Bytes × End
push chunk (chunks, end) = (chunk ∷ chunks, end)

-- The bytes of the range that are to be delivered; `totalSize - 1` stops at 0.
abbrev pub wanted_of : ℕ → ℕ → ℕ → ℕ
wanted_of start end total = if total == 0 then 0 else min end (total - 1) + 1 - start

-- What follows a slice that was enqueued, or not, if it is empty.
abbrev pub after_slice : Bytes → ℕ → Bool → List Bytes × End → List Bytes × End
after_slice slice remaining done rest =
    if leb remaining 0
    then (slice ∷ [], closed)
    else if done
    then (slice ∷ [], errored)
    else if is_empty slice
    then ([], waiting)
    else push slice rest

-- The pulls after the first one. An empty slice is listed where the source enqueues nothing: it adds
-- no byte.
unfoldable pub pull_replies : ℕ → List Reply → List Bytes × End
pull_replies remaining [] = ([], waiting)
pull_replies remaining (fails ∷ replies) = ([], errored)
pull_replies remaining (got value done ∷ replies) =
    let slice = take remaining value in
    let rest = pull_replies (remaining - length slice) replies in
    after_slice slice (remaining - length slice) done rest

-- The result of `readRange`: an error before there is a response, no response while the first read is not
-- answered, or the body and its size.
pub data RangeRead : Type 0 where
  refused unanswered : RangeRead
  answered : List Bytes × End → ℕ → RangeRead

abbrev pub first_pull : Bytes → ℕ → List Bytes × End → List Bytes × End
first_pull pending remaining rest =
    if leb remaining 0 then (pending ∷ [], closed) else push pending rest

-- From the first read on; its `done` is not looked at.
abbrev pub read_first : ℕ → List Reply → RangeRead
read_first wanted [] = unanswered
read_first wanted (fails ∷ replies) = refused
read_first wanted (got value done ∷ replies) =
    let pending = take wanted value in
    let remaining = wanted - length pending in
    if is_empty value
    then refused
    else answered (first_pull pending remaining (pull_replies remaining replies)) wanted

unfoldable pub read_range : ℕ → ℕ → ℕ → List Reply → RangeRead
unfolding pull_replies
read_range start end total replies =
    let wanted = wanted_of start end total in
    if wanted == 0 then answered ([], closed) 0 else read_first wanted replies

-- The pulls of the full read: what is still to be skipped and to be delivered, and the chunks of the
-- download. A download that ends, with or without an error, ends the body with an error.
unfoldable pub pull_whole : ℕ → ℕ → List Bytes → List Bytes × End
pull_whole skip remaining [] = ([], if leb remaining 0 then closed else errored)
pull_whole skip remaining (chunk ∷ chunks) =
    let kept = drop (min skip (length chunk)) chunk in
    let slice = take remaining kept in
    let rest = pull_whole (skip - min skip (length chunk)) (remaining - length slice) chunks in
    if leb remaining 0
    then ([], closed)
    else if leb (remaining - length slice) 0
    then (slice ∷ [], closed)
    else push slice rest
