-- ===== src/Scheduler/Frame.antt =====
-- What leaves the ready table of src/scheduler.c as it is: the timer list, and nodes on no queue.
use rtthread_nano_to_riscv.Prelude.{ℕ, ◌<◌, ◌≢◌, List, [], ◌∷◌, map, Avoids, subst, sym}
use rtthread_nano_to_riscv.Service.Node.{Node, ready, tlist, row, TimerId}
use rtthread_nano_to_riscv.Service.Links.{insert_after, list_remove}
use rtthread_nano_to_riscv.Service.Pointers.{IsAlone, list_remove-IsLinked, insert_after-IsLinked}
use rtthread_nano_to_riscv.Service.Ring.{Ring-list_remove_frame, Ring-insert_after_frame}
use rtthread_nano_to_riscv.Kernel.{Kernel, priority_max}
use rtthread_nano_to_riscv.Scheduler.Queues.{Queues, IsReady}
use rtthread_nano_to_riscv.Timer.Order.{IsTimerNode}

pub Avoids-row : (t : TimerId) (ts : List ℕ) → Avoids (row t) (map tlist ts)
Avoids-row t [] = tt
Avoids-row t (u ∷ ts) = (λ e. cc, Avoids-row t ts)

Avoids-timer_node : (l : Node) → IsTimerNode l → (ts : List ℕ) → Avoids l (map tlist ts)
Avoids-timer_node l h [] = tt
Avoids-timer_node l h (u ∷ ts) = (λ e. subst IsTimerNode (sym e) h, Avoids-timer_node l h ts)

module _ (k : Kernel) (q : Queues) (r : IsReady k q) where
  -- a node that is on no queue is taken off its list
  pub IsReady-list_remove :
      (n : Node)
      → ((p : ℕ) → ready p ≢ n)
      → ((p : ℕ) → p < priority_max → Avoids n (map tlist (q p)))
      → IsReady (record k { links = list_remove n k.links }) q
  IsReady-list_remove n head off = record {
    linked = list_remove-IsLinked k.links n r.linked;
    rings = λ p h.
        Ring-list_remove_frame k.links (ready p) (map tlist (q p)) (r.rings p h) n r.linked (head p)
          (off p h);
    bits = r.bits;
    width = r.width;
    queued = r.queued;
  }

  pub IsReady-remove_row :
      (t : TimerId) → IsReady (record k { links = list_remove (row t) k.links }) q
  IsReady-remove_row t = IsReady-list_remove (row t) (λ p e. cc) (λ p h. Avoids-row t (q p))

  -- a timer is put on the timer list
  pub IsReady-insert_row :
      (l : Node) (t : TimerId)
      → IsTimerNode l
      → l ≢ row t
      → IsAlone k.links (row t)
      → IsReady (record k { links = insert_after l (row t) k.links }) q
  IsReady-insert_row l t h ne al = record {
    linked = insert_after-IsLinked k.links l (row t) r.linked al ne;
    rings = λ p b.
        Ring-insert_after_frame k.links (ready p) (map tlist (q p)) (r.rings p b) l (row t) r.linked
          al ne (λ e. cc) (λ e. subst IsTimerNode (sym e) h) (Avoids-timer_node l h (q p));
    bits = r.bits;
    width = r.width;
    queued = r.queued;
  }
