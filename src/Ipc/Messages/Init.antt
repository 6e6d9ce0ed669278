-- ===== src/Ipc/Messages/Init.antt =====
-- `rt_mq_init`: the free messages of a new queue.
use rtthread_nano_to_riscv.Prelude.{
  ℕ, zero, suc, ◌+◌, ◌/◌, ◌%◌, ◌^◌, ◌<◌, ◌≡◌, refl, sym, ◌∙◌, subst, ℕ_discrete, if_pos, none, some,
  List, [], ◌∷◌, length, arith, All, Avoids, Distinct,
}
use rtthread_nano_to_riscv.Service.Node.{suspended}
use rtthread_nano_to_riscv.Service.Links.{list_init}
use rtthread_nano_to_riscv.Service.Ring.{Ring, Ring-list_init}
use rtthread_nano_to_riscv.Kernel.{Kernel, set_links, eok}
use rtthread_nano_to_riscv.Mem.{align}
use rtthread_nano_to_riscv.Ipc.Messages.{
  set_head, set_tail, set_free, set_messages, set_sizes, push_free, link_messages, mq_init,
}
use rtthread_nano_to_riscv.Service.Chain.{Chain, Chain-frame}
use rtthread_nano_to_riscv.Ipc.Messages.Chain.{IsQueue}

-- the addresses of `n` messages from the one at `at` on, the last one first, in front of `later`
abbrev pub pushed : ℕ → ℕ → ℕ → List ℕ → List ℕ
pushed width at zero later = later
pushed width at (suc n) later = pushed width (at + width) n (at ∷ later)

length-pushed :
    (width at n : ℕ) (later : List ℕ) → length (pushed width at n later) ≡ n + length later
length-pushed width at zero later = omega arith
length-pushed width at (suc n) later =
    omega (arith, length-pushed width (at + width) n (at ∷ later))

-- Messages below an address are apart from it, and stay below a higher one.
below-Avoids : (at : ℕ) (bs : List ℕ) → All (λ b. b < at) bs → Avoids at bs
below-Avoids at [] a = tt
below-Avoids at (b ∷ bs) a = ((λ e. omega (arith, e, a.0)), below-Avoids at bs a.1)

below_add : (at width : ℕ) (bs : List ℕ) → All (λ b. b < at) bs → All (λ b. b < at + width) bs
below_add at width [] a = tt
below_add at width (b ∷ bs) a = (omega (arith, a.0), below_add at width bs a.1)

link_messages_lem :
    (i width n at : ℕ) (k : Kernel) (later : List ℕ)
    → 0 < width
    → Chain k.msg_next (k.message_queue i).free later
    → All (λ b. b < at) later
    → Distinct later
    → Chain
        (link_messages i width at n k).msg_next
        ((link_messages i width at n k).message_queue i).free
        (pushed width at n later)
      × Distinct (pushed width at n later)
unfolding link_messages
link_messages_lem i width zero at k later h c a d = (c, d)
link_messages_lem i width (suc n) at k later h c a d =
    let o = below-Avoids at later a in
    link_messages_lem i width n (at + width) (push_free i at k) (at ∷ later) h
      (
        if_pos (ℕ_discrete i i) refl (some at) (k.message_queue i).free,
        subst (λ p. Chain (push_free i at k).msg_next p later)
            (sym (if_pos (ℕ_discrete at at) refl _ _))
            (Chain-frame k.msg_next at (k.message_queue i).free (k.message_queue i).free later o c),
      )
      (omega (arith, h), below_add at width later a) (o, d)

-- what the loop leaves
link_messages-same :
    (i width n at : ℕ) (k : Kernel)
    → (((link_messages i width at n k).message_queue i).head ≡ (k.message_queue i).head)
      × (((link_messages i width at n k).message_queue i).tail ≡ (k.message_queue i).tail)
      × ((link_messages i width at n k).links ≡ k.links)
unfolding link_messages
link_messages-same i width zero at k = (refl, refl, refl)
link_messages-same i width (suc n) at k =
    link_messages-same i width n (at + width) (push_free i at k)

-- the size of a message, and how many fit
abbrev pub message_size : ℕ → ℕ
message_size msg_size = align msg_size % 2 ^ 16

abbrev pub message_count : ℕ → ℕ → ℕ
message_count pool_size msg_size = (pool_size / (message_size msg_size + 4)) % 2 ^ 16

-- the state before the loop, and after the call
abbrev set_up : Kernel → ℕ → ℕ → ℕ → ℕ → ℕ → Kernel
set_up k i pool msg_size pool_size flag = set_free i none (
    set_tail i none (
      set_head i none (
        set_sizes i flag pool (message_size msg_size) (message_count pool_size msg_size)
          (set_links (list_init (suspended i)) k))))

abbrev pub init_out : Kernel → ℕ → ℕ → ℕ → ℕ → ℕ → Kernel
init_out k i pool msg_size pool_size flag = set_messages i 0 (
    link_messages i (message_size msg_size + 4) pool (message_count pool_size msg_size)
      (set_up k i pool msg_size pool_size flag))

-- `rt_mq_init` makes an empty queue. The free messages are as many as fit into the pool, modulo 16 bits,
-- side by side from its start on, and the last one is the first to be used; nobody waits.
pub mq_init-IsQueue :
    (k : Kernel) (i pool msg_size pool_size flag : ℕ)
    → (mq_init i pool msg_size pool_size flag k
        ≡ some (eok, init_out k i pool msg_size pool_size flag))
      × IsQueue
          (init_out k i pool msg_size pool_size flag)
          i
          []
          (pushed (message_size msg_size + 4) pool (message_count pool_size msg_size) [])
      × Ring (init_out k i pool msg_size pool_size flag).links (suspended i) []
unfolding mq_init
mq_init-IsQueue k i pool msg_size pool_size flag =
    let width = message_size msg_size + 4 in
    let n = message_count pool_size msg_size in
    let k0 = set_up k i pool msg_size pool_size flag in
    let here = ℕ_discrete i i in
    let l = link_messages_lem i width n pool k0 [] (omega arith) (if_pos here refl none _) tt tt in
    let same = link_messages-same i width n pool k0 in
    (
      refl,
      record {
        head = same.0 ∙ if_pos here refl none _;
        tail = same.1 ∙ if_pos here refl none _;
        free = l.0;
        distinct = l.1;
        count = if_pos here refl 0 _;
        word = omega (arith, length-pushed width pool n []);
      },
      subst (λ s. Ring s (suspended i) []) (sym same.2) (Ring-list_init k.links (suspended i)),
    )
