-- ===== src/Mock/Put/Steps.antt =====
-- The parts of `MockGateway.put` in src/service/mockGateway.ts: the plan, the transfer, and the draft
-- that stands at the name meanwhile.
use rclone_proton_drive_webd.Base.{
  ℕ, ◌≡◌, refl, sym, ◌∙◌, Bool, true, false, Option, none, some, List, [], ◌∷◌, ◌++◌, append-nil,
  append_assoc, arith, if◌then◌else◌, Bool-cases, inl, inr,
}
use rclone_proton_drive_webd.Base.Text.{Text}
use rclone_proton_drive_webd.Gateway.{Bytes, PutOptions, Thrown}
use rclone_proton_drive_webd.Mock.Tree.{
  MockFile, MockDraft, MockNode, file, dir, draft, Children, get_child, set_child, delete_child,
}
use rclone_proton_drive_webd.Mock.Tree.Lookup.{
  seen, IsLeaf, OnlyAt, set_child-OnlyAt, delete_child-OnlyAt, get_child-set_child,
  get_child-delete_child,
}
use rclone_proton_drive_webd.Mock.State.{MockGateway}
use rclone_proton_drive_webd.Mock.Put.{
  PutPlan, refuse, skip, revise, replace_draft, create, plan_put, is_identical, Transfer, complete,
  receive, receive_chunk, reaches, with_draft, without_draft,
}

-- What stands at the name when the plan is to upload.
abbrev pub Ready : PutPlan → Option MockNode → Type 0
Ready create o = o ≡ none
Ready (revise f) o = o ≡ some (file f)
Ready replace_draft o = (d : MockDraft) × (o ≡ some (draft d))
Ready skip o = ⊥
Ready (refuse e) o = ⊥

-- Nothing lies below a name where an upload starts.
pub Ready-IsLeaf : (plan : PutPlan) (o : Option MockNode) → Ready plan o → IsLeaf o
Ready-IsLeaf create o r s = rw r refl
Ready-IsLeaf (revise f) o r s = rw r refl
Ready-IsLeaf replace_draft o (d, r) s = rw r refl
Ready-IsLeaf skip o r s = absurd r
Ready-IsLeaf (refuse e) o r s = absurd r

pub get_child-set_child_here :
    (k : Text) (v : MockNode) (cs : Children) → get_child k (set_child k v cs) ≡ some v
get_child-set_child_here k v cs = ground (arith, get_child-set_child k k v cs)

pub get_child-delete_child_here :
    (k : Text) (cs : Children) → get_child k (delete_child k cs) ≡ none
get_child-delete_child_here k cs = ground (arith, get_child-delete_child k k cs)

module _ (name : Text) (t : Transfer) (st : MockGateway) where
  pub with_draft-OnlyAt : (plan : PutPlan) → OnlyAt name (with_draft plan name t st)
  with_draft-OnlyAt create j cs ne = set_child-OnlyAt name _ j cs ne
  with_draft-OnlyAt replace_draft j cs ne =
      set_child-OnlyAt name _ j (delete_child name cs) ne ∙ delete_child-OnlyAt name j cs ne
  with_draft-OnlyAt (revise f) j cs ne = refl
  with_draft-OnlyAt skip j cs ne = refl
  with_draft-OnlyAt (refuse e) j cs ne = refl

  pub with_draft-IsLeaf :
      (plan : PutPlan) (cs : Children)
      → Ready plan (get_child name cs)
      → IsLeaf (get_child name (with_draft plan name t st cs))
  with_draft-IsLeaf create cs r s = rw get_child-set_child_here refl
  with_draft-IsLeaf replace_draft cs r s = rw get_child-set_child_here refl
  with_draft-IsLeaf (revise f) cs r s = rw r refl
  with_draft-IsLeaf skip cs r s = absurd r
  with_draft-IsLeaf (refuse e) cs r s = absurd r

  -- A draft shows what was there: nothing, or the file under revision.
  pub seen-with_draft :
      (plan : PutPlan) (cs : Children)
      → Ready plan (get_child name cs)
      → seen (get_child name (with_draft plan name t st cs)) ≡ seen (get_child name cs)
  seen-with_draft create cs r = rw (get_child-set_child_here, r) refl
  seen-with_draft replace_draft cs (d, r) = rw (get_child-set_child_here, r) refl
  seen-with_draft (revise f) cs r = refl
  seen-with_draft skip cs r = refl
  seen-with_draft (refuse e) cs r = refl

  pub without_draft-OnlyAt : (plan : PutPlan) → OnlyAt name (without_draft plan name)
  without_draft-OnlyAt create j cs ne = delete_child-OnlyAt name j cs ne
  without_draft-OnlyAt replace_draft j cs ne = delete_child-OnlyAt name j cs ne
  without_draft-OnlyAt (revise f) j cs ne = refl
  without_draft-OnlyAt skip j cs ne = refl
  without_draft-OnlyAt (refuse e) j cs ne = refl

  -- After the draft is gone the name shows what it showed.
  pub without_draft-IsLeaf :
      (plan : PutPlan) (cs : Children)
      → Ready plan (get_child name cs)
      → let after = get_child name (without_draft plan name (with_draft plan name t st cs)) in
        IsLeaf after × (seen after ≡ seen (get_child name (with_draft plan name t st cs)))
  without_draft-IsLeaf create cs r =
      rw (get_child-delete_child_here, get_child-set_child_here) (λ s. refl, refl)
  without_draft-IsLeaf replace_draft cs r =
      rw (get_child-delete_child_here, get_child-set_child_here) (λ s. refl, refl)
  without_draft-IsLeaf (revise f) cs r = (rw r (λ s. refl), refl)
  without_draft-IsLeaf skip cs r = absurd r
  without_draft-IsLeaf (refuse e) cs r = absurd r

-- What a plan says about the node it was made for.
abbrev pub Planned : Text → PutOptions → MockGateway → Option MockNode → PutPlan → Type 0
Planned p opts st o (revise f) = (o ≡ some (file f)) × (opts.immutable ≡ false)
Planned p opts st o create = o ≡ none
Planned p opts st o replace_draft = (d : MockDraft) × (o ≡ some (draft d))
Planned p opts st o skip = (f : MockFile) × (o ≡ some (file f)) × (is_identical p f opts st ≡ true)
Planned p opts st o (refuse e) = Unit

module _ (p : Text) (opts : PutOptions) (st : MockGateway) where
  Planned-draft :
      (d : MockDraft) (e : Thrown) (b : Bool)
      → Planned p opts st (some (draft d)) (if b then refuse e else replace_draft)
  Planned-draft d e true = tt
  Planned-draft d e false = (d, refl)

  Planned-file :
      (f : MockFile) (e : Thrown) (same fixed : Bool)
      → is_identical p f opts st ≡ same
      → opts.immutable ≡ fixed
      → Planned p opts st
          (some (file f))
          (if same then skip else if fixed then refuse e else revise f)
  Planned-file f e true fixed h i = (f, refl, h)
  Planned-file f e false true h i = tt
  Planned-file f e false false h i = (refl, i)

  pub plan_put-Planned : (o : Option MockNode) → Planned p opts st o (plan_put p o opts st)
  unfolding plan_put
  plan_put-Planned none = refl
  plan_put-Planned (some (dir m cs)) = tt
  plan_put-Planned (some (draft d)) = Planned-draft d _ _
  plan_put-Planned (some (file f)) = Planned-file f _ _ _ refl refl

append-snoc : (xs : List Bytes) (c : Bytes) (cs : List Bytes) → (xs ++ c ∷ []) ++ cs ≡ xs ++ c ∷ cs
append-snoc xs c cs = append_assoc xs (c ∷ []) cs

-- A transfer that completes has taken every chunk.
pub receive_complete :
    (p : Text) (drop_at : Option ℕ) (broken : Bool) (chunks : List Bytes) (t : Transfer)
    → (receive p drop_at broken chunks t).1 ≡ complete
    → (receive p drop_at broken chunks t).0.chunks ≡ t.chunks ++ chunks
unfolding receive
receive_complete p drop_at broken [] t e = sym (append-nil t.chunks)
receive_complete p drop_at broken (c ∷ cs) t e =
    elim (Bool-cases (reaches drop_at (receive_chunk p c t).received_bytes)) [
      | inl stops ↦ cc
      | inr goes_on ↦ rw goes_on (
          receive_complete p drop_at broken cs (receive_chunk p c t) (rw goes_on at e)
          ∙ append-snoc t.chunks c cs)
    ]
