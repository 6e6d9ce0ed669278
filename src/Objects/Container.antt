-- ===== src/Objects/Container.antt =====
-- A container as the list of its objects.
use Prim.Native.Nat.{bit_or}
use rtthread_nano_to_riscv.Prelude.{
  ℕ, zero, suc, ◌<◌, ◌≡◌, ◌≢◌, refl, ap, true, false, ◌==◌, if◌then◌else◌, Option, none, some, List,
  [], ◌∷◌, ◌++◌, map, length, Avoids, arith, Bool-cases, inl, inr, not_zero, not_less,
}
use rtthread_nano_to_riscv.Service.Node.{Node, node_eq, container, object}
use rtthread_nano_to_riscv.Service.Links.{insert_after, list_remove}
use rtthread_nano_to_riscv.Service.Pointers.{IsLinked, IsAlone}
use rtthread_nano_to_riscv.Service.Seg.{Seg}
use rtthread_nano_to_riscv.Service.Ring.{Ring, Ring-insert_after, Ring-list_remove}
use rtthread_nano_to_riscv.Kernel.{Kernel, set_links}
use rtthread_nano_to_riscv.Kservice.Strings.{strncmp, strncpy}
use rtthread_nano_to_riscv.Scheduler.{
  enter_critical, exit_critical, increment16, decrement16, le_zero16,
}
use rtthread_nano_to_riscv.Objects.{
  name_max, class_static, class_unknown, set_type, get_information, absent_loop, object_init,
  object_detach, find_loop, object_find,
}

-- the node from which a walk goes on, for the objects that are left
abbrev pub node_of : ℕ → List ℕ → Node
node_of c [] = container c
node_of c (a ∷ os) = object a

next_node :
    (next : Node → Node) (c : ℕ) (a : Node) (os : List ℕ)
    → Seg next a (map (λ x. object x) os) (container c)
    → next a ≡ node_of c os
next_node next c a [] g = g
next_node next c a (o ∷ os) g = g.0

absent_loop_lem :
    (k : Kernel) (fuel c obj : ℕ) (a : Node) (os : List ℕ)
    → length os < fuel
    → Avoids obj os
    → Seg k.links.next a (map (λ x. object x) os) (container c)
    → absent_loop fuel c (node_of c os) obj k ≡ some (tt, k)
unfolding absent_loop node_eq
absent_loop_lem k zero c obj a os f o g = absurd (omega arith)
absent_loop_lem k (suc fuel) c obj a [] f o g = ground arith
absent_loop_lem k (suc fuel) c obj a (x ∷ os) f o g = rw (other x obj o.0) (
    rw (next_node k.links.next c (object x) os g.1)
      (absent_loop_lem k fuel c obj (object x) os (omega arith) o.1 g.1))
  where
    other : (x obj : ℕ) → x ≢ obj → (x == obj) ≡ false
    other x obj ne = ground arith

-- the first object with the name
abbrev pub first_named : (ℕ → ℕ) → ℕ → List ℕ → Option ℕ
first_named bytes name [] = none
first_named bytes name (a ∷ os) =
    if strncmp a name name_max bytes == 0 then some a else first_named bytes name os

find_loop_lem :
    (k : Kernel) (fuel c name : ℕ) (a : Node) (os : List ℕ)
    → length os < fuel
    → Seg k.links.next a (map (λ x. object x) os) (container c)
    → find_loop fuel c (node_of c os) name k ≡ some (first_named k.bytes name os, k)
unfolding find_loop node_eq
find_loop_lem k zero c name a os f g = absurd (omega arith)
find_loop_lem k (suc fuel) c name a [] f g = ground arith
find_loop_lem k (suc fuel) c name a (x ∷ os) f g =
    elim (Bool-cases (strncmp x name name_max k.bytes == 0)) [
      | inl e ↦ rw e refl
      | inr e ↦ rw e (
          rw (next_node k.links.next c (object x) os g.1)
            (find_loop_lem k fuel c name (object x) os (omega arith) g.1))
    ]

-- the critical section before the scheduler starts
enters : (k : Kernel) → k.lock_nest ≡ 0 → enter_critical k ≡ some (tt, record k { lock_nest = 1 })
unfolding enter_critical increment16
enters k z = rw z refl

exits :
    (k : Kernel)
    → k.current ≡ none
    → exit_critical (record k { lock_nest = 1 }) ≡ some (tt, record k { lock_nest = 0 })
unfolding exit_critical decrement16 le_zero16
exits k n = rw n refl

-- Before the scheduler starts, `rt_object_find` of a type that has a container gives the first object with
-- the name, as far as `rt_strncmp` reads it, or RT_NULL where there is none; the walk ends, given
-- more fuel than there are objects.
pub object_find-first_named :
    (k : Kernel) (fuel name type c : ℕ) (os : List ℕ)
    → 0 < name
    → type < 12
    → get_information type ≡ some c
    → k.interrupt_nest ≡ 0
    → k.lock_nest ≡ 0
    → k.current ≡ none
    → Ring k.links (container c) (map (λ x. object x) os)
    → length os < fuel
    → object_find fuel name type k ≡ some (first_named k.bytes name os, record k { lock_nest = 0 })
unfolding object_find
object_find-first_named k fuel name type c os h t i nest lock cur r f =
    let k1 : Kernel = record k { lock_nest = 1 } in
    let idle : (k.interrupt_nest == 0) ≡ true = ap (λ n. n == 0) nest in
    let walk = find_loop_lem k1 fuel c name (container c) os f r.0 in
    rw (not_zero name h) (
      rw (not_less class_unknown type (omega arith)) (
        rw idle (
          rw (enters k lock) (
            rw i (
              rw (next_node k.links.next c (container c) os r.0)
                (rw walk (rw (exits k cur) refl)))))))

-- the state after `rt_object_init`
abbrev pub init_out : Kernel → ℕ → ℕ → ℕ → ℕ → Kernel
init_out k obj type name c =
    set_links (insert_after (container c) (object obj))
      (record (set_type obj (bit_or type class_static) (record k { lock_nest = 0 })) {
        bytes = strncpy obj name name_max k.bytes;
      })

-- Before the scheduler starts, `rt_object_init` puts an object that is in no list in front of the others in
-- the container of its type; these stay in their order.
pub object_init-Ring :
    (k : Kernel) (fuel obj type name c : ℕ) (os : List ℕ)
    → get_information type ≡ some c
    → k.lock_nest ≡ 0
    → k.current ≡ none
    → IsLinked k.links
    → IsAlone k.links (object obj)
    → Ring k.links (container c) (map (λ x. object x) os)
    → Avoids obj os
    → length os < fuel
    → (object_init fuel obj type name k ≡ some (tt, init_out k obj type name c))
      × Ring (init_out k obj type name c).links (container c) (map (λ x. object x) (obj ∷ os))
unfolding object_init
object_init-Ring k fuel obj type name c os i lock cur w al r o f =
    let k1 : Kernel = record k { lock_nest = 1 } in
    let walk = absent_loop_lem k1 fuel c obj (container c) os f o r.0 in
    (
      rw i (
          rw (enters k lock)
            (rw (next_node k.links.next c (container c) os r.0) (rw walk (rw (exits k cur) refl)))),
      Ring-insert_after k.links (container c) (object obj) w al (λ e. cc) (map (λ x. object x) os)
          r,
    )

-- `rt_object_detach` takes an object out of its container; the others stay in their order.
pub object_detach-Ring :
    (k : Kernel) (obj c : ℕ) (before after : List ℕ)
    → IsLinked k.links
    → Ring k.links
        (container c)
        (map (λ x. object x) before ++ object obj ∷ map (λ x. object x) after)
    → (object_detach obj k ≡ some (tt, set_links (list_remove (object obj)) (set_type obj 0 k)))
      × Ring
          (list_remove (object obj) k.links)
          (container c)
          (map (λ x. object x) before ++ map (λ x. object x) after)
unfolding object_detach
object_detach-Ring k obj c before after w r = (
  refl,
  Ring-list_remove k.links (container c) (object obj) w (map (λ x. object x) before)
      (map (λ x. object x) after) r,
)
