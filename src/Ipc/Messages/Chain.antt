-- ===== src/Ipc/Messages/Chain.antt =====
-- The lists of messages of a message queue: those that were sent, and the free ones.
use rtthread_nano_to_riscv.Prelude.{
  ℕ, suc, ◌^◌, ◌<◌, ◌≤◌, ◌≡◌, refl, ap, List, [], ◌∷◌, ◌++◌, length, arith, Distinct,
}
use rtthread_nano_to_riscv.Service.Chain.{Chain, last_of}
use rtthread_nano_to_riscv.Kernel.{Kernel}

-- The queue `i` has the messages `sent`, the first one first, and the free messages `unused`.
pub record IsQueue (k : Kernel) (i : ℕ) (sent unused : List ℕ) : Type 0 where
  pub head : Chain k.msg_next (k.message_queue i).head sent
  pub tail : (k.message_queue i).tail ≡ last_of sent
  pub free : Chain k.msg_next (k.message_queue i).free unused
  pub distinct : Distinct (sent ++ unused)
  pub count : (k.message_queue i).entry ≡ length sent
  pub word : length (sent ++ unused) < 2 ^ 16

pub length-append : (xs ys : List ℕ) (m : ℕ) → length (xs ++ m ∷ ys) ≡ suc (length (xs ++ ys))
length-append [] ys m = refl
length-append (x ∷ xs) ys m = ap suc (length-append xs ys m)

pub length-le : (xs ys : List ℕ) → length xs ≤ length (xs ++ ys)
length-le [] ys = omega arith
length-le (x ∷ xs) ys = omega (arith, length-le xs ys)
