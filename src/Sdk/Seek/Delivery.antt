-- ===== src/Sdk/Seek/Delivery.antt =====
-- What the ranged reads of src/service/sdkGateway.ts deliver.
use rclone_proton_drive_webd.Base.{ℕ, ◌+◌, ◌≤◌, ◌≡◌, List, [], ◌∷◌, ◌++◌, length, take}
use rclone_proton_drive_webd.Gateway.{Bytes, concat}
use rclone_proton_drive_webd.Sdk.Seek.{
  Reply, got, fails, End, closed, errored, waiting, RangeRead, refused, unanswered, answered,
}

-- The body holds `n` bytes of the content if it is closed, and fewer otherwise.
abbrev pub Delivers : ℕ → Bytes → List Bytes × End → Type 0
Delivers n content (chunks, closed) =
    (concat chunks ≡ take n content) × (length (concat chunks) ≡ n)
Delivers n content (chunks, errored) =
    (concat chunks ≡ take (length (concat chunks)) content) × (length (concat chunks) + 1 ≤ n)
Delivers n content (chunks, waiting) =
    (concat chunks ≡ take (length (concat chunks)) content) × (length (concat chunks) + 1 ≤ n)

-- The bytes of the replies up to one that fails.
abbrev pub bytes_of : List Reply → Bytes
bytes_of [] = []
bytes_of (fails ∷ replies) = []
bytes_of (got value done ∷ replies) = value ++ bytes_of replies

-- The first reply, which is needed before there is a response.
abbrev pub FirstFails : List Reply → Type 0
FirstFails [] = ⊥
FirstFails (fails ∷ replies) = Unit
FirstFails (got value done ∷ replies) = value ≡ []

abbrev pub Reads : ℕ → List Reply → RangeRead → Type 0
Reads n replies refused = FirstFails replies
Reads n replies unanswered = replies ≡ []
Reads n replies (answered body size) = (size ≡ n) × Delivers n (bytes_of replies) body
