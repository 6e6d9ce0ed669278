-- ===== src/Service/Links.antt =====
-- include/rtservice.h: `rt_list_t` and its operations, over the `next` and `prev` fields of every
-- node. A write through a pointer changes one field of one node; each line below is one
-- assignment of the source, in its order.
use rtthread_nano_to_riscv.Prelude.{ℕ, zero, suc, ◌+◌, Bool, true, false, Option, none, some, ite}
use rtthread_nano_to_riscv.Service.Node.{Node, node_eq}

pub record Links : Type 0 where
  pub next : Node → Node
  pub prev : Node → Node

-- `a->next = v` and `a->prev = v`
unfoldable pub set_next : Node → Node → Links → Links
set_next a v s = record s { next = λ m. ite (node_eq m a) v (s.next m) }

unfoldable pub set_prev : Node → Node → Links → Links
set_prev a v s = record s { prev = λ m. ite (node_eq m a) v (s.prev m) }

unfoldable pub list_init : Node → Links → Links
unfolding set_next set_prev
list_init l s = set_next l l (set_prev l l s)

unfoldable pub insert_after : Node → Node → Links → Links
unfolding set_next set_prev
insert_after l n s0 =
    let s1 : Links = set_prev (s0.next l) n s0 in
    let s2 : Links = set_next n (s1.next l) s1 in
    let s3 : Links = set_next l n s2 in set_prev n l s3

unfoldable pub insert_before : Node → Node → Links → Links
unfolding set_next set_prev
insert_before l n s0 =
    let s1 : Links = set_next (s0.prev l) n s0 in
    let s2 : Links = set_prev n (s1.prev l) s1 in
    let s3 : Links = set_prev l n s2 in set_next n l s3

unfoldable pub list_remove : Node → Links → Links
unfolding set_next set_prev
list_remove n s0 =
    let s1 : Links = set_prev (s0.next n) (s0.prev n) s0 in
    let s2 : Links = set_next (s1.prev n) (s1.next n) s1 in
    let s3 : Links = set_prev n n s2 in set_next n n s3

unfoldable pub list_isempty : Node → Links → Bool
list_isempty l s = ite (node_eq (s.next l) l) true false

-- The loop of `rt_list_len`, on fuel; `none` means that the fuel ran out.
unfoldable pub len_loop : ℕ → Node → Node → ℕ → Links → Option ℕ
len_loop zero l p len s = none
len_loop (suc fuel) l p len s =
    let rest = len_loop fuel l (s.next p) (len + 1) s in ite (node_eq (s.next p) l) (some len) rest

unfoldable pub list_len : ℕ → Node → Links → Option ℕ
unfolding len_loop
list_len fuel l s = len_loop fuel l l 0 s
