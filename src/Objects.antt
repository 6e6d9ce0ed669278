-- ===== src/Objects.antt =====
-- src/object.c: the containers of the kernel's objects. An object is its address, and its name stands there
-- in the memory. The containers are those of every option but RT_USING_MODULE.
pub mod Container
use Prim.Native.Nat.{bit_and, bit_or}
use rtthread_nano_to_riscv.Prelude.{
  ℕ, zero, suc, ◌+◌, ◌-◌, ◌^◌, Bool, true, false, not, Option, none, some, List, [], ◌∷◌, ◌==◌, ltb,
  leb, ◌||◌, if◌then◌else◌, ite, ℕ_discrete,
}
use rtthread_nano_to_riscv.Service.Node.{Node, node_eq, container, object}
use rtthread_nano_to_riscv.Service.Links.{insert_after, list_remove}
use rtthread_nano_to_riscv.Kernel.{
  Kernel, M, pure, fault, ◌>>=◌, ◌>>◌, get, modify, rt_assert, set_links, interrupt_disable,
  interrupt_enable,
}
use rtthread_nano_to_riscv.Kservice.Strings.{strncmp, strncpy}
use rtthread_nano_to_riscv.Scheduler.{enter_critical, exit_critical}

-- RT_NAME_MAX, RT_Object_Class_Unknown and RT_Object_Class_Static
abbrev pub name_max : ℕ
name_max = 8

abbrev pub class_unknown : ℕ
class_unknown = 12

abbrev pub class_static : ℕ
class_static = 0x80

-- the types in `rt_object_container`: threads, semaphores, mutexes, events, mailboxes, message queues, memory heaps,
-- memory pools, devices and timers
abbrev pub object_container : List ℕ
object_container = 1 ∷ 2 ∷ 3 ∷ 4 ∷ 5 ∷ 6 ∷ 7 ∷ 8 ∷ 9 ∷ 10 ∷ []

unfoldable pub information_loop : List ℕ → ℕ → ℕ → Option ℕ
information_loop [] type index = none
information_loop (t ∷ ts) type index =
    let rest = information_loop ts type (index + 1) in if t == type then some index else rest

-- `rt_object_get_information`, the information as its index
unfoldable pub get_information : ℕ → Option ℕ
unfolding information_loop
get_information type = information_loop object_container type 0

-- RT_ASSERT of the information
abbrev pub found : Option ℕ → M ℕ
found none = fault
found (some c) = pure c

-- `object->type = v`
abbrev pub set_type : ℕ → ℕ → Kernel → Kernel
set_type obj v k = record k { object_type = λ a. ite (ℕ_discrete a obj) v (k.object_type a) }

-- `rt_list_entry`, a fault for a node that is in no object
unfoldable pub object_entry : Node → M ℕ
object_entry (object a) = pure a
object_entry _ = fault

-- The loop of `rt_object_init` over the container, on fuel for its turns: the object is not in it.
unfoldable pub absent_loop : ℕ → ℕ → Node → ℕ → M (Unit {0})
unfolding object_entry
absent_loop zero c node obj = fault
absent_loop (suc fuel) c node obj = do
  k ← get
  if ite (node_eq node (container c)) true false then pure tt else (do
    a ← object_entry node
    rt_assert (not (a == obj))
    absent_loop fuel c (k.links.next node) obj)

unfoldable pub object_init : ℕ → ℕ → ℕ → ℕ → M (Unit {0})
unfolding get_information absent_loop
object_init fuel obj type name = do
  c ← found (get_information type)
  enter_critical
  k ← get
  absent_loop fuel c (k.links.next (container c)) obj
  exit_critical
  modify (set_type obj (bit_or type class_static))
  modify (λ k. record k { bytes = strncpy obj name name_max k.bytes })
  temp ← interrupt_disable
  modify (set_links (insert_after (container c) (object obj)))
  interrupt_enable temp

unfoldable pub object_detach : ℕ → M (Unit {0})
object_detach obj = do
  modify (set_type obj 0)
  temp ← interrupt_disable
  modify (set_links (list_remove (object obj)))
  interrupt_enable temp

unfoldable pub is_systemobject : ℕ → M Bool
is_systemobject obj = do k ← get; pure (not (bit_and (k.object_type obj) class_static == 0))

-- A type is a byte.
unfoldable pub get_type : ℕ → M ℕ
get_type obj = do k ← get; pure (bit_and (k.object_type obj) (2 ^ 8 - 1 - class_static))

-- The loop of `rt_object_find` over the container, on fuel for its turns.
unfoldable pub find_loop : ℕ → ℕ → Node → ℕ → M (Option ℕ)
unfolding object_entry
find_loop zero c node name = fault
find_loop (suc fuel) c node name = do
  k ← get
  if ite (node_eq node (container c)) true false then pure none else (do
    a ← object_entry node
    if strncmp a name name_max k.bytes == 0
        then pure (some a)
        else find_loop fuel c (k.links.next node) name)

unfoldable pub object_find : ℕ → ℕ → ℕ → M (Option ℕ)
unfolding get_information find_loop
object_find fuel name type = do
  k ← get
  if name == 0 || ltb class_unknown type then pure none else (do
    rt_assert (k.interrupt_nest == 0)
    enter_critical
    c ← found (get_information type)
    k ← get
    obj ← find_loop fuel c (k.links.next (container c)) name
    exit_critical
    pure obj)
