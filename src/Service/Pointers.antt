-- ===== src/Service/Pointers.antt =====
-- The fields of every node after each operation of include/rtservice.h, in closed form, and that
-- `next` and `prev` stay inverse to each other.
use mathlib.Core.Path.{fun_ext}
use rtthread_nano_to_riscv.Prelude.{◌≡◌, ◌≢◌, arith, ite}
use rtthread_nano_to_riscv.Service.Node.{Node, node_eq}
use rtthread_nano_to_riscv.Service.Links.{Links, insert_before, insert_after, list_remove}

-- `prev` undoes `next`, and `next` undoes `prev`, at every node.
pub record IsLinked (s : Links) : Type 0 where
  pub prev_next : (a : Node) → s.prev (s.next a) ≡ a
  pub next_prev : (a : Node) → s.next (s.prev a) ≡ a

-- a node on no list, as `rt_list_init` and `rt_list_remove` leave it
abbrev pub IsAlone : Links → Node → Type 0
IsAlone s n = (s.next n ≡ n) × (s.prev n ≡ n)

module _ (s : Links) (l n a : Node) (w : IsLinked s) (al : IsAlone s n) (ne : l ≢ n) where
  pub next-insert_before :
      (insert_before l n s).next a ≡ ite (node_eq a n) l (ite (node_eq (s.next a) l) n (s.next a))
  unfolding insert_before
  next-insert_before = ground (arith, w.prev_next a, w.next_prev l, w.prev_next l)

  pub prev-insert_before :
      (insert_before l n s).prev a ≡ ite (node_eq a n) (s.prev l) (ite (node_eq a l) n (s.prev a))
  unfolding insert_before
  prev-insert_before = ground (arith, w.prev_next a, w.next_prev l)

  pub next-insert_after :
      (insert_after l n s).next a ≡ ite (node_eq a n) (s.next l) (ite (node_eq a l) n (s.next a))
  unfolding insert_after
  next-insert_after = ground (arith, w.prev_next a, w.next_prev a)

  pub prev-insert_after :
      (insert_after l n s).prev a ≡ ite (node_eq a n) l (ite (node_eq (s.prev a) l) n (s.prev a))
  unfolding insert_after
  prev-insert_after = ground (arith, w.next_prev a, w.prev_next l, w.next_prev l)

module _ (s : Links) (n a : Node) (w : IsLinked s) where
  pub next-list_remove :
      (list_remove n s).next a
      ≡ ite (node_eq a n) n (ite (node_eq (s.next a) n) (s.next n) (s.next a))
  unfolding list_remove
  next-list_remove = ground (arith, w.prev_next a, w.next_prev n, w.prev_next n, w.next_prev a)

  pub prev-list_remove :
      (list_remove n s).prev a
      ≡ ite (node_eq a n) n (ite (node_eq (s.prev a) n) (s.prev n) (s.prev a))
  unfolding list_remove
  prev-list_remove = ground (arith, w.prev_next a, w.next_prev n, w.prev_next n, w.next_prev a)

module _ (s : Links) (l n : Node) (w : IsLinked s) (al : IsAlone s n) (ne : l ≢ n) where
  pub insert_before-IsLinked : IsLinked (insert_before l n s)
  insert_before-IsLinked = record {
    prev_next = λ a. ground (
      arith,
      next-insert_before s l n a w al ne,
      prev-insert_before s l n ((insert_before l n s).next a) w al ne,
      w.prev_next a,
      w.prev_next l,
      w.prev_next n,
    );
    next_prev = λ a. ground (
      arith,
      prev-insert_before s l n a w al ne,
      next-insert_before s l n ((insert_before l n s).prev a) w al ne,
      w.next_prev a,
      w.next_prev l,
      w.next_prev n,
    );
  }

  pub insert_after-eq-insert_before : insert_after l n s ≡ insert_before (s.next l) n s
  insert_after-eq-insert_before =
      λ i. record { next = fun_ext same_next i; prev = fun_ext same_prev i }
    where
      apart : s.next l ≢ n
      apart e = ground (arith, w.prev_next l, e)

      same_next : (a : Node) → (insert_after l n s).next a ≡ (insert_before (s.next l) n s).next a
      same_next a = ground (
        arith,
        next-insert_after s l n a w al ne,
        next-insert_before s (s.next l) n a w al apart,
        w.prev_next a,
        w.prev_next l,
      )

      same_prev : (a : Node) → (insert_after l n s).prev a ≡ (insert_before (s.next l) n s).prev a
      same_prev a = ground (
        arith,
        prev-insert_after s l n a w al ne,
        prev-insert_before s (s.next l) n a w al apart,
        w.next_prev a,
        w.prev_next l,
      )

  pub insert_after-IsLinked : IsLinked (insert_after l n s)
  insert_after-IsLinked = record {
    prev_next = λ a. ground (
      arith,
      next-insert_after s l n a w al ne,
      prev-insert_after s l n ((insert_after l n s).next a) w al ne,
      w.prev_next a,
      w.prev_next l,
      w.prev_next n,
    );
    next_prev = λ a. ground (
      arith,
      prev-insert_after s l n a w al ne,
      next-insert_after s l n ((insert_after l n s).prev a) w al ne,
      w.next_prev a,
      w.next_prev l,
      w.next_prev n,
    );
  }

module _ (s : Links) (n : Node) (w : IsLinked s) where
  pub list_remove-IsLinked : IsLinked (list_remove n s)
  list_remove-IsLinked = record {
    prev_next = λ a. ground (
      arith,
      next-list_remove s n a w,
      prev-list_remove s n ((list_remove n s).next a) w,
      w.prev_next a,
      w.prev_next n,
      w.next_prev n,
    );
    next_prev = λ a. ground (
      arith,
      prev-list_remove s n a w,
      next-list_remove s n ((list_remove n s).prev a) w,
      w.next_prev a,
      w.prev_next n,
      w.next_prev n,
    );
  }

  pub list_remove-IsAlone : IsAlone (list_remove n s) n
  list_remove-IsAlone =
      (ground (arith, next-list_remove s n n w), ground (arith, prev-list_remove s n n w))

  -- What is on no list stays so.
  pub IsAlone-list_remove : (m : Node) → IsAlone s m → IsAlone (list_remove n s) m
  IsAlone-list_remove m al =
      (ground (arith, next-list_remove s n m w), ground (arith, prev-list_remove s n m w))

module _ (s : Links) (l n : Node) (w : IsLinked s) (al : IsAlone s n) (ne : l ≢ n) where
  pub IsAlone-insert_before :
      (m : Node) → IsAlone s m → m ≢ n → m ≢ l → IsAlone (insert_before l n s) m
  IsAlone-insert_before m am mn ml = (
    ground (arith, next-insert_before s l n m w al ne),
    ground (arith, prev-insert_before s l n m w al ne),
  )

  pub IsAlone-insert_after :
      (m : Node) → IsAlone s m → m ≢ n → m ≢ l → IsAlone (insert_after l n s) m
  IsAlone-insert_after m am mn ml = (
    ground (arith, next-insert_after s l n m w al ne),
    ground (arith, prev-insert_after s l n m w al ne),
  )
