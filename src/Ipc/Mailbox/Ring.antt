-- ===== src/Ipc/Mailbox/Ring.antt =====
-- The ring buffer of a mailbox, read as the queue of its mails.
use rtthread_nano_to_riscv.Prelude.{
  ℕ, suc, ◌+◌, ◌-◌, ◌^◌, ◌<◌, ◌≤◌, ◌≡◌, ◌≢◌, ap, ◌∙◌, ltb, if◌then◌else◌, ite, ℕ_discrete, if_pos,
  if_neg, List, [], ◌∷◌, ◌++◌, length, arith,
}
use rtthread_nano_to_riscv.Kernel.{Mailbox}
use rtthread_nano_to_riscv.Ipc.Mailbox.{step}

-- the offset of the mail number `j`, the first one at `out`
abbrev pub slot : ℕ → ℕ → ℕ → ℕ
slot size out j = if ltb (out + j) size then out + j else out + j - size

-- The mails from number `j` on are `xs`.
abbrev pub Stored : (ℕ → ℕ) → ℕ → ℕ → ℕ → List ℕ → Type 0
Stored pool size out j [] = Unit
Stored pool size out j (x ∷ xs) = (pool (slot size out j) ≡ x) × Stored pool size out (suc j) xs

-- The mailbox holds `mails`, the next one to be received first.
pub record IsMailbox (mb : Mailbox) (mails : List ℕ) : Type 0 where
  pub word : mb.size < 2 ^ 16
  pub count : mb.entry ≡ length mails
  pub room : length mails ≤ mb.size
  pub out : mb.out_offset < mb.size
  pub next_in : mb.in_offset ≡ slot mb.size mb.out_offset (length mails)
  pub stored : Stored mb.msg_pool mb.size mb.out_offset 0 mails

slot-ne : (size out i j : ℕ) → out < size → i < j → j < size → slot size out i ≢ slot size out j
slot-ne size out i j h l m e = ground arith

-- the step of `in_offset`
pub step-slot :
    (size out n : ℕ)
    → size < 2 ^ 16
    → out < size
    → n < size
    → step size (slot size out n) ≡ slot size out (suc n)
unfolding step
step-slot size out n w h l = ground arith

-- the number of each mail falls by one when `out_offset` steps
pub slot-step :
    (size out j : ℕ)
    → size < 2 ^ 16
    → out < size
    → suc j ≤ size
    → slot size (step size out) j ≡ slot size out (suc j)
unfolding step
slot-step size out j w h l = ground arith

pub step-lt : (size out : ℕ) → out < size → step size out < size
unfolding step
step-lt size out h = ground arith

-- the buffer with `v` at an offset
abbrev pub stored_at : ℕ → ℕ → (ℕ → ℕ) → ℕ → ℕ
stored_at at v pool o = ite (ℕ_discrete o at) v (pool o)

-- A mail behind the others leaves these as they are.
pub Stored-append :
    (pool : ℕ → ℕ) (size out j n v : ℕ) (xs : List ℕ)
    → out < size
    → n ≡ j + length xs
    → n < size
    → Stored pool size out j xs
    → Stored (stored_at (slot size out n) v pool) size out j (xs ++ v ∷ [])
Stored-append pool size out j n v [] h e l s =
    let q : j ≡ n = omega (arith, e) in (if_pos (ℕ_discrete _ _) (ap (slot size out) q) v _, tt)
Stored-append pool size out j n v (x ∷ xs) h e l s =
    let ne = slot-ne size out j n h (omega (arith, e)) l in
    (
      if_neg (ℕ_discrete _ _) ne v _ ∙ s.0,
      Stored-append pool size out (suc j) n v xs h (omega (arith, e)) l s.1,
    )

-- Without the first mail the others move up.
pub Stored-step :
    (pool : ℕ → ℕ) (size out j : ℕ) (xs : List ℕ)
    → size < 2 ^ 16
    → out < size
    → suc j + length xs ≤ size
    → Stored pool size out (suc j) xs
    → Stored pool size (step size out) j xs
Stored-step pool size out j [] w h l s = tt
Stored-step pool size out j (x ∷ xs) w h l s = (
  ap pool (slot-step size out j w h (omega (arith, l))) ∙ s.0,
  Stored-step pool size out (suc j) xs w h (omega (arith, l)) s.1,
)
