-- ===== src/Service/Slist.antt =====
-- include/rtservice.h: `rt_slist_t` and its operations, over the `next` field of every node. A node is its
-- address, and RT_NULL is `none`. The walks run on fuel for their turns.
pub mod Walks
use rtthread_nano_to_riscv.Prelude.{
  ℕ, zero, suc, ◌+◌, ◌%◌, ◌^◌, Bool, true, false, Option, none, some, ◌==◌, ite, ℕ_discrete,
}

-- `a->next = v`
abbrev pub set_single : ℕ → Option ℕ → (ℕ → Option ℕ) → ℕ → Option ℕ
set_single at v next a = ite (ℕ_discrete a at) v (next a)

unfoldable pub slist_init : ℕ → (ℕ → Option ℕ) → ℕ → Option ℕ
slist_init l next = set_single l none next

unfoldable pub slist_insert : ℕ → ℕ → (ℕ → Option ℕ) → ℕ → Option ℕ
slist_insert l n next =
    let next1 : ℕ → Option ℕ = set_single n (next l) next in set_single l (some n) next1

-- the last node, from the node `l` on
unfoldable pub slist_tail : ℕ → ℕ → (ℕ → Option ℕ) → Option ℕ
slist_tail zero l next = none
slist_tail (suc fuel) l next = elim (next l) [ none ↦ some l | some m ↦ slist_tail fuel m next ]

abbrev pub append_at : Option ℕ → ℕ → (ℕ → Option ℕ) → Option (ℕ → Option ℕ)
append_at none n next = none
append_at (some last) n next = some (set_single n none (set_single last (some n) next))

unfoldable pub slist_append : ℕ → ℕ → ℕ → (ℕ → Option ℕ) → Option (ℕ → Option ℕ)
unfolding slist_tail
slist_append fuel l n next = append_at (slist_tail fuel l next) n next

unfoldable pub slist_len_loop : ℕ → Option ℕ → ℕ → (ℕ → Option ℕ) → Option ℕ
slist_len_loop zero list len next = none
slist_len_loop (suc fuel) none len next = some len
slist_len_loop (suc fuel) (some m) len next = slist_len_loop fuel (next m) (len + 1) next

unfoldable pub slist_len : ℕ → ℕ → (ℕ → Option ℕ) → Option ℕ
unfolding slist_len_loop
slist_len fuel l next = slist_len_loop fuel (next l) 0 next

-- The loop of `rt_slist_remove` stops in front of the node `n`, or at the last one.
unfoldable pub find_before : ℕ → ℕ → ℕ → (ℕ → Option ℕ) → Option ℕ
find_before zero l n next = none
find_before (suc fuel) l n next = elim (next l) [
  | none ↦ some l
  | some m ↦ ite (ℕ_discrete m n) (some l) (find_before fuel m n next)
]

-- `if (node->next != RT_NULL) node->next = node->next->next`
abbrev pub skip : ℕ → Option ℕ → (ℕ → Option ℕ) → ℕ → Option ℕ
skip node none next = next
skip node (some m) next = set_single node (next m) next

abbrev pub remove_behind : Option ℕ → (ℕ → Option ℕ) → Option (ℕ → Option ℕ)
remove_behind none next = none
remove_behind (some node) next = some (skip node (next node) next)

unfoldable pub slist_remove : ℕ → ℕ → ℕ → (ℕ → Option ℕ) → Option (ℕ → Option ℕ)
unfolding find_before
slist_remove fuel l n next = remove_behind (find_before fuel l n next) next

unfoldable pub slist_first : ℕ → (ℕ → Option ℕ) → Option ℕ
slist_first l next = next l

unfoldable pub slist_next : ℕ → (ℕ → Option ℕ) → Option ℕ
slist_next n next = next n

unfoldable pub slist_isempty : ℕ → (ℕ → Option ℕ) → Bool
slist_isempty l next = elim (next l) [ none ↦ true | some m ↦ false ]
