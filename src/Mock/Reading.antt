-- ===== src/Mock/Reading.antt =====
-- `MockGateway.read` of src/service/mockGateway.ts. The stream is read to its end.
pub mod Whole
use rclone_proton_drive_webd.Base.{
  ℕ, zero, suc, ◌+◌, ◌-◌, Bool, true, false, Option, none, some, List, [], ◌∷◌, ltb, leb,
  if◌then◌else◌, length, take, drop, min,
}
use rclone_proton_drive_webd.Base.Text.{Text, codes}
use rclone_proton_drive_webd.Gateway.{
  Bytes, ByteRange, Stream, ReadResult, Op, Outcome, ok, throw, raise, return, ◌>>=◌, ◌>>◌,
  plain_error, not_found_error, not_found_default,
}
use rclone_proton_drive_webd.Paths.{normalize}
use rclone_proton_drive_webd.Mock.Tree.{MockFile, MockNode, file, dir, draft}
use rclone_proton_drive_webd.Mock.State.{MockGateway, tick, lookup}

-- `data.subarray(start, end + 1)`
abbrev pub subarray : Bytes → ℕ → ℕ → Bytes
subarray bytes start stop = drop start (take stop bytes)

-- The bytes of the range; `end` is cut to the last position.
unfoldable pub slice_of : Bytes → Option ByteRange → Bytes
slice_of bytes none = subarray bytes 0 (length bytes)
slice_of bytes (some (start, end)) = subarray bytes start (min (end + 1) (length bytes))

-- The rounds of `pull`: chunks of at most 65536 bytes from `offset` up to `limit`. Each round that
-- is not the last takes a byte, so `limit` rounds are enough.
unfoldable pub pull_chunks : ℕ → Bytes → ℕ → ℕ → List Bytes
pull_chunks zero bytes offset limit = []
pull_chunks (suc fuel) bytes offset limit =
    let chunk = subarray bytes offset (min (offset + 65536) limit) in
    let rest = pull_chunks fuel bytes (offset + length chunk) limit in
    if leb limit offset then [] else chunk ∷ rest

-- Where the stream stops.
abbrev pub limit_of : Option ℕ → ℕ → ℕ
limit_of none size = size
limit_of (some drop_at) size = if ltb drop_at size then drop_at else size

unfoldable pub stream_of : Bytes → Option ℕ → Stream
unfolding pull_chunks
stream_of slice drop_at =
    let limit = limit_of drop_at (length slice) in
    record { chunks = pull_chunks (suc limit) slice 0 limit; broken = ltb limit (length slice) }

abbrev clear_drop_get : MockGateway → MockGateway
clear_drop_get st = record st { faults = record (st.faults) { drop_get_after_bytes = none } }

abbrev drops_at_once : Option ℕ → Bool
drops_at_once none = false
drops_at_once (some n) = leb n 0

unfoldable pub read_file : MockFile → Option ByteRange → Op MockGateway ReadResult
read_file f range st =
    let slice = slice_of f.content range in
    let drop_at = st.faults.drop_get_after_bytes in
    if drops_at_once drop_at
    then (
      throw (plain_error (codes "Simulated failure before any data was sent") 502),
      clear_drop_get st,
    )
    else (
      ok (record {
        stream = stream_of slice drop_at;
        size = length slice;
        total_size = length f.content;
      }),
      clear_drop_get st,
    )

abbrev pub read_node : Option MockNode → Option ByteRange → Op MockGateway ReadResult
read_node none range = raise (not_found_error not_found_default)
read_node (some (dir m cs)) range = raise (not_found_error not_found_default)
read_node (some (draft d)) range = raise (not_found_error not_found_default)
read_node (some (file f)) range = read_file f range

abbrev if_connected : Bool → Op MockGateway ReadResult → Op MockGateway ReadResult
if_connected true op = raise (plain_error (codes "Client went away") 499)
if_connected false op = op

unfoldable pub read : Text → Option ByteRange → Bool → Op MockGateway ReadResult
read path range aborted =
    if_connected aborted (do
      let p = normalize path
      tick (codes "read") p
      λ st. read_node (lookup p false st) range st)
