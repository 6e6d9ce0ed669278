-- ===== src/Ipc/Mutex/Owner.antt =====
-- The owner of a mutex of src/ipc.c.
use rtthread_nano_to_riscv.Prelude.{
  ℕ, ◌+◌, ◌-◌, ◌%◌, ◌^◌, ◌<◌, ◌≡◌, ◌≢◌, refl, subst, ◌∙◌, true, false, ◌==◌, if_pos, ℕ_discrete,
  some, none, List, [], arith,
}
use rtthread_nano_to_riscv.Kernel.{Kernel, set_error, ◌>>◌, eok, error}
use rtthread_nano_to_riscv.Ipc.{returns}
use rtthread_nano_to_riscv.Ipc.Waiting.{IsWaiting}
use rtthread_nano_to_riscv.Ipc.Semaphore.{in_thread_context-running}
use rtthread_nano_to_riscv.Thread.Yield.{self-running}
use rtthread_nano_to_riscv.Ipc.Mutex.{
  set_value, set_owner, set_original, set_hold, is_owner, mutex_take, mutex_release,
}

-- Nobody owns the mutex, and nobody waits for it.
pub record IsFree (k : Kernel) (i : ℕ) : Type 0 where
  pub owner : (k.mutex i).owner ≡ none
  pub value : (k.mutex i).value ≡ 1
  pub hold : (k.mutex i).hold ≡ 0
  pub waiting : IsWaiting k i []

-- Thread `o` owns the mutex, having taken it `n` times, and the threads `ws` wait.
pub record IsOwned (k : Kernel) (i o n : ℕ) (ws : List ℕ) : Type 0 where
  pub owner : (k.mutex i).owner ≡ some o
  pub value : (k.mutex i).value ≡ 0
  pub hold : (k.mutex i).hold ≡ n
  pub positive : 0 < n
  pub byte : n < 2 ^ 8
  pub waiting : IsWaiting k i ws

-- Thread `t` runs, outside of interrupts.
pub record IsRunning (k : Kernel) (t : ℕ) : Type 0 where
  pub current : k.current ≡ some t
  pub nest : k.interrupt_nest ≡ 0

-- the states after a free mutex was taken, and after the owner took it again
abbrev pub own_out : Kernel → ℕ → ℕ → Kernel
own_out k i t = set_hold i (((k.mutex i).hold + 1) % 2 ^ 8) (
    set_original i ((k.thread t).current_priority % 2 ^ 8)
      (set_owner i (some t) (set_value i ((k.mutex i).value - 1) (set_error t eok k))))

abbrev pub again_out : Kernel → ℕ → ℕ → Kernel
again_out k i t = set_hold i (((k.mutex i).hold + 1) % 2 ^ 8) (set_error t eok k)

-- the state after one hold was given back
abbrev pub less_out : Kernel → ℕ → Kernel
less_out k i = set_hold i (((k.mutex i).hold + 2 ^ 8 - 1) % 2 ^ 8) k

pub is_owner_self : (t : ℕ) → is_owner (some t) t ≡ true
unfolding is_owner
is_owner_self t = ground arith

-- A thread that takes a free mutex becomes its owner and the priority that it has is kept in the mutex,
-- whatever the time to wait.
pub mutex_take-IsOwned :
    (k : Kernel) (fuel i t time : ℕ)
    → IsRunning k t
    → IsFree k i
    → (mutex_take fuel i time k ≡ some (returns eok, own_out k i t))
      × IsOwned (own_out k i t) i t 1 []
      × (((own_out k i t).mutex i).original_priority ≡ (k.thread t).current_priority % 2 ^ 8)
unfolding mutex_take
mutex_take-IsOwned k fuel i t time c f =
    let here = ℕ_discrete i i in
    (
      rw (in_thread_context-running k t c.current c.nest)
          (rw (self-running k t c.current) (rw f.owner (rw f.value refl))),
      record {
        owner = if_pos here refl (some t) (k.mutex i).owner;
        value = if_pos here refl _ (k.mutex i).value ∙ omega (arith, f.value);
        hold = if_pos here refl _ (k.mutex i).hold ∙ omega (arith, f.hold);
        positive = omega arith;
        byte = omega arith;
        waiting = record { ring = f.waiting.ring; stats = f.waiting.stats };
      },
      if_pos here refl _ (k.mutex i).original_priority,
    )

module _ (k : Kernel) (i t n : ℕ) (ws : List ℕ) (c : IsRunning k t) (o : IsOwned k i t n ws) where
  pub mutex_take-again :
      (fuel time : ℕ)
      → n + 1 < 2 ^ 8
      → (mutex_take fuel i time k ≡ some (returns eok, again_out k i t))
        × IsOwned (again_out k i t) i t (n + 1) ws
  unfolding mutex_take
  mutex_take-again fuel time w = (
    rw (in_thread_context-running k t c.current c.nest)
        (rw (self-running k t c.current) (rw o.owner (rw (is_owner_self t) refl))),
    record {
      owner = o.owner;
      value = o.value;
      hold = if_pos (ℕ_discrete i i) refl _ (k.mutex i).hold ∙ omega (arith, o.hold, w);
      positive = omega arith;
      byte = w;
      waiting = record { ring = o.waiting.ring; stats = o.waiting.stats };
    },
  )

  pub mutex_release-less :
      1 < n → (mutex_release i k ≡ some (eok, less_out k i)) × IsOwned (less_out k i) i t (n - 1) ws
  unfolding mutex_release
  mutex_release-less w =
      let held : ((less_out k i).mutex i).hold ≡ n - 1 =
        if_pos (ℕ_discrete i i) refl _ (k.mutex i).hold ∙ omega (arith, o.hold, o.byte, w) in
      (
        rw (in_thread_context-running k t c.current c.nest) (
            rw (self-running k t c.current)
              (rw o.owner (rw (is_owner_self t) (rw held (rw (nonzero n w) refl))))),
        record {
          owner = o.owner;
          value = o.value;
          hold = held;
          positive = omega (arith, w);
          byte = omega (arith, o.byte);
          waiting = record { ring = o.waiting.ring; stats = o.waiting.stats };
        },
      )
    where
      nonzero : (n : ℕ) → 1 < n → (n - 1 == 0) ≡ false
      nonzero n w = ground arith

-- The owner, which runs outside of interrupts and holds the mutex fewer than 255 times, takes it
-- once more and gives it back, and holds it as often as before.
pub mutex_release-mutex_take :
    (k : Kernel) (fuel i t n time : ℕ) (ws : List ℕ)
    → IsRunning k t
    → IsOwned k i t n ws
    → n + 1 < 2 ^ 8
    → ((mutex_take fuel i time >> mutex_release i) k ≡ some (eok, less_out (again_out k i t) i))
      × IsOwned (less_out (again_out k i t) i) i t n ws
mutex_release-mutex_take k fuel i t n time ws c o w =
    let a = mutex_take-again k i t n ws c o fuel time w in
    let c1 : IsRunning (again_out k i t) t = record { current = c.current; nest = c.nest } in
    let r =
      mutex_release-less (again_out k i t) i t (n + 1) ws c1 a.1 (omega (arith, o.positive)) in
    let back : n + 1 - 1 ≡ n = omega arith in
    (rw a.0 r.0, subst (λ m. IsOwned (less_out (again_out k i t) i) i t m ws) back r.1)

-- A thread that is not the owner cannot release a mutex: the call is an error, and only the thread's
-- error number is set.
pub mutex_release-stranger :
    (k : Kernel) (i t o : ℕ)
    → IsRunning k t
    → (k.mutex i).owner ≡ some o
    → o ≢ t
    → mutex_release i k ≡ some (error, set_error t error k)
unfolding mutex_release is_owner
mutex_release-stranger k i t o c e ne =
    rw (in_thread_context-running k t c.current c.nest)
      (rw (self-running k t c.current) (rw e (rw (stranger o t ne) refl)))
  where
    stranger : (o t : ℕ) → o ≢ t → is_owner (some o) t ≡ false
    stranger o t ne = ground arith
