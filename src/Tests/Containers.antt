-- ===== src/Tests/Containers.antt =====
-- Object containers at a concrete state.
use rtthread_nano_to_riscv.Prelude.{◌≡◌, refl, some, [], ◌∷◌, map, arith}
use rtthread_nano_to_riscv.Service.Node.{container, object}
use rtthread_nano_to_riscv.Service.Links.{insert_after}
use rtthread_nano_to_riscv.Service.Ring.{Ring, Ring-insert_after}
use rtthread_nano_to_riscv.Kernel.{Kernel}
use rtthread_nano_to_riscv.Objects.{get_information, object_init, object_find}
use rtthread_nano_to_riscv.Objects.Container.{
  first_named, init_out, object_find-first_named, object_init-Ring,
}
use rtthread_nano_to_riscv.Tests.States.{blank, no_links, no_links-IsLinked}

semaphores : get_information 2 ≡ some 1
unfolding get_information
semaphores = refl

-- the object at 5000 is in the container of the semaphores
abbrev one_object : Kernel
one_object = record blank { links = insert_after (container 1) (object 5000) no_links }

one_object_lem : Ring one_object.links (container 1) (map (λ x. object x) (5000 ∷ []))
one_object_lem =
    Ring-insert_after no_links (container 1) (object 5000) no_links-IsLinked (refl, refl) (λ e. cc)
      [] (refl, (tt, tt))

object_find-first_named_example :
    object_find 2 6000 2 one_object
    ≡ some (first_named one_object.bytes 6000 (5000 ∷ []), record one_object { lock_nest = 0 })
object_find-first_named_example =
    object_find-first_named one_object 2 6000 2 1 (5000 ∷ []) (omega arith) (omega arith) semaphores
      refl refl refl one_object_lem (omega arith)

object_init-Ring_example :
    (object_init 1 7000 2 6000 blank ≡ some (tt, init_out blank 7000 2 6000 1))
    × Ring (init_out blank 7000 2 6000 1).links (container 1) (map (λ x. object x) (7000 ∷ []))
object_init-Ring_example =
    object_init-Ring blank 1 7000 2 6000 1 [] semaphores refl refl no_links-IsLinked (refl, refl)
      (refl, (tt, tt)) tt (omega arith)
