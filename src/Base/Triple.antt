-- ===== src/Base/Triple.antt =====
-- Conditions before and after an action, on both of its ends.
use rclone_proton_drive_webd.Base.Action.{
  Ended, done, failed, Action, continue, ◌>>=◌, recover, catch,
}

module _ {X S A : Type 0} where
  -- `Q` where there is a value, `E` where something was thrown.
  abbrev pub Post : (A → S → Type 0) → (X → S → Type 0) → Ended X A × S → Type 0
  Post Q E (done a, s) = Q a s
  Post Q E (failed e, s) = E e s

  abbrev pub Triple : (S → Type 0) → Action X S A → (A → S → Type 0) → (X → S → Type 0) → Type 0
  Triple P act Q E = (s : S) → P s → Post Q E (act s)

module _ {X S A B : Type 0} (Q : A → S → Type 0) (E : X → S → Type 0) (R : B → S → Type 0) where
  continue-Post :
      (f : A → Action X S B) (r : Ended X A × S)
      → ((a : A) → Triple (Q a) (f a) R E)
      → Post Q E r
      → Post R E (continue f r)
  continue-Post f (done a, s) next h = next a s h
  continue-Post f (failed e, s) next h = h

  pub then-Triple :
      (P : S → Type 0) (act : Action X S A) (f : A → Action X S B)
      → Triple P act Q E
      → ((a : A) → Triple (Q a) (f a) R E)
      → Triple P (act >>= f) R E
  then-Triple P act f first next s h = continue-Post f (act s) next (first s h)

module _ {X S A : Type 0} (Q : A → S → Type 0) (E F : X → S → Type 0) where
  recover-Post :
      (h : X → Action X S A) (r : Ended X A × S)
      → ((e : X) → Triple (E e) (h e) Q F)
      → Post Q E r
      → Post Q F (recover h r)
  recover-Post h (done a, s) next p = p
  recover-Post h (failed e, s) next p = next e s p

  pub catch-Triple :
      (P : S → Type 0) (act : Action X S A) (h : X → Action X S A)
      → Triple P act Q E
      → ((e : X) → Triple (E e) (h e) Q F)
      → Triple P (catch act h) Q F
  catch-Triple P act h first next s p = recover-Post h (act s) next (first s p)
