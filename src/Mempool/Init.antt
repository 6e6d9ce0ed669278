-- ===== src/Mempool/Init.antt =====
-- `rt_mp_init`: the blocks of a new pool.
use rtthread_nano_to_riscv.Prelude.{
  ℕ, zero, suc, ◌+◌, ◌-◌, ◌*◌, ◌/◌, ◌^◌, ◌<◌, ◌≡◌, refl, sym, ap, ◌∙◌, subst, ℕ_discrete, if_pos,
  if_neg, some, List, [], ◌∷◌, length, Avoids, Distinct, arith,
}
use rtthread_nano_to_riscv.Service.Node.{suspended}
use rtthread_nano_to_riscv.Service.Links.{list_init}
use rtthread_nano_to_riscv.Service.Ring.{Ring, Ring-list_init}
use rtthread_nano_to_riscv.Kernel.{Kernel, null, next_block, set_links, eok}
use rtthread_nano_to_riscv.Mem.{align, align_down}
use rtthread_nano_to_riscv.Mempool.{
  stride, set_area, set_list, set_free_count, set_total_count, set_waiting_count, set_word,
  link_blocks, mp_init,
}
use rtthread_nano_to_riscv.Mempool.Blocks.{Linked, IsPool}

-- the addresses of `n` blocks from the one at `at` on
abbrev pub blocks_from : ℕ → ℕ → ℕ → List ℕ
blocks_from width at zero = []
blocks_from width at (suc n) = at ∷ blocks_from width (at + width) n

length-blocks_from : (width at n : ℕ) → length (blocks_from width at n) ≡ n
length-blocks_from width at zero = refl
length-blocks_from width at (suc n) = ap suc (length-blocks_from width (at + width) n)

blocks_from-above : (width at n a : ℕ) → 0 < width → a < at → Avoids a (blocks_from width at n)
blocks_from-above width at zero a w l = tt
blocks_from-above width at (suc n) a w l =
    ((λ e. omega (arith, e, l)), blocks_from-above width (at + width) n a w (omega arith))

blocks_from-Distinct : (width at n : ℕ) → 0 < width → Distinct (blocks_from width at n)
blocks_from-Distinct width at zero w = tt
blocks_from-Distinct width at (suc n) w = (
  blocks_from-above width (at + width) n at w (omega arith),
  blocks_from-Distinct width (at + width) n w,
)

-- the loop writes only from its first block on
link_blocks-below :
    (width n at a : ℕ) (k : Kernel)
    → a < at
    → (link_blocks width at n k).block_word a ≡ k.block_word a
unfolding link_blocks
link_blocks-below width zero at a k l = refl
link_blocks-below width (suc n) at a k l =
    link_blocks-below width n (at + width) a (set_word at (next_block (at + width)) k) (omega arith)
    ∙ if_neg (ℕ_discrete a at) (λ e. omega (arith, e, l)) _ (k.block_word a)

-- After the last link is cut, the blocks are linked in their order.
link_blocks-Linked :
    (width n at last : ℕ) (k : Kernel)
    → 0 < width
    → last ≡ at + n * width
    → Linked
        (set_word last null (link_blocks width at (suc n) k)).block_word
        (blocks_from width at (suc n))
unfolding link_blocks
link_blocks-Linked width zero at last k w e =
    let q : at ≡ last = omega (arith, e) in (if_pos (ℕ_discrete at last) q null _, tt)
link_blocks-Linked width (suc n) at last k w e =
    let k1 = set_word at (next_block (at + width)) k in
    let p : last ≡ at + width + n * width = e ∙ product at n width in
    (
      if_neg (ℕ_discrete at last) (λ q. omega (arith, p, q, w)) null _
          ∙ link_blocks-below width (suc n) (at + width) at k1 (omega arith)
          ∙ if_pos (ℕ_discrete at at) refl (next_block (at + width)) (k.block_word at),
      link_blocks-Linked width n (at + width) last k1 w p,
    )
  where
    product : (at n width : ℕ) → at + suc n * width ≡ at + width + n * width
    product at n width = ground arith

link_blocks-mempool :
    (width n at : ℕ) (k : Kernel)
    → ((link_blocks width at n k).mempool ≡ k.mempool)
      × ((link_blocks width at n k).links ≡ k.links)
unfolding link_blocks
link_blocks-mempool width zero at k = (refl, refl)
link_blocks-mempool width (suc n) at k =
    link_blocks-mempool width n (at + width) (set_word at (next_block (at + width)) k)

-- Blocks that are linked and counted make a pool.
linked-IsPool :
    (k : Kernel) (i start width n : ℕ)
    → 0 < width
    → 0 < n
    → n < 2 ^ 32
    → (k.mempool i).block_free_count ≡ n
    → IsPool
        (set_list i
          (next_block start)
          (set_word (start + n * width - width) null (link_blocks width start n k)))
        i
        (blocks_from width start n)
linked-IsPool k i start width zero w h b c = absurd (omega arith)
linked-IsPool k i start width (suc n) w h b c =
    let m = (link_blocks-mempool width (suc n) start k).0 in
    record {
      list = if_pos (ℕ_discrete i i) refl (next_block start) _;
      linked =
          link_blocks-Linked width n start (start + suc n * width - width) k w (last start n width);
      distinct = blocks_from-Distinct width start (suc n) w;
      count = ap (λ f. (f i).block_free_count) m ∙ c ∙ sym (length-blocks_from width start (suc n));
      word = subst (λ l. l < 2 ^ 32) (sym (length-blocks_from width start (suc n))) b;
    }
  where
    last : (start n width : ℕ) → start + suc n * width - width ≡ start + n * width
    last start n width = ground arith

-- the number of blocks that fit
abbrev pub total_of : ℕ → ℕ → ℕ
total_of size block_size = align_down size / stride (align block_size)

few : (size block_size : ℕ) → size < 2 ^ 32 → total_of size block_size < 2 ^ 32
unfolding align_down
few size block_size w = ground arith

-- the state with the fields set, before the blocks are linked
abbrev set_up : Kernel → ℕ → ℕ → ℕ → ℕ → Kernel
set_up k i start size block_size =
    let total = total_of size block_size in
    set_waiting_count i 0 (
      set_links (list_init (suspended i)) (
        set_free_count i total
          (set_total_count i total (set_area i start (align_down size) (align block_size) k))))

-- the state after the call
abbrev pub init_out : Kernel → ℕ → ℕ → ℕ → ℕ → Kernel
init_out k i start size block_size =
    let width = stride (align block_size) in
    let total = total_of size block_size in
    set_list i (next_block start) (
      set_word (start + total * width - width) null
        (link_blocks width start total (set_up k i start size block_size)))

-- With room for a block `rt_mp_init` makes a pool whose free blocks are as many as fit, at the start of
-- the area and side by side, in their order; nobody waits for it.
pub mp_init-IsPool :
    (k : Kernel) (i start size block_size : ℕ)
    → size < 2 ^ 32
    → 0 < total_of size block_size
    → (mp_init i start size block_size k ≡ some (eok, init_out k i start size block_size))
      × IsPool
          (init_out k i start size block_size)
          i
          (blocks_from (stride (align block_size)) start (total_of size block_size))
      × Ring (init_out k i start size block_size).links (suspended i) []
unfolding mp_init
mp_init-IsPool k i start size block_size w h =
    let total = total_of size block_size in
    let width = stride (align block_size) in
    let k0 = set_up k i start size block_size in
    let none_waits =
      Ring-list_init (set_area i start (align_down size) (align block_size) k).links
        (suspended i) in
    (
      refl,
      linked-IsPool k0 i start width total (omega arith) h (few size block_size w)
          (if_pos (ℕ_discrete i i) refl total (k.mempool i).block_free_count),
      subst (λ l. Ring l (suspended i) []) (sym (link_blocks-mempool width total start k0).1)
          none_waits,
    )
