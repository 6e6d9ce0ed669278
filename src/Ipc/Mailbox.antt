-- ===== src/Ipc/Mailbox.antt =====
-- The mailboxes of src/ipc.c.
pub mod Ring
pub mod Queue
use rtthread_nano_to_riscv.Prelude.{
  ℕ, ◌+◌, ◌-◌, ◌%◌, ◌^◌, Bool, true, false, none, ◌==◌, ltb, leb, ◌&&◌, if◌then◌else◌, ite,
  ℕ_discrete, Option, some,
}
use rtthread_nano_to_riscv.Service.Node.{suspended}
use rtthread_nano_to_riscv.Service.Links.{list_init, list_isempty}
use rtthread_nano_to_riscv.Kernel.{
  Kernel, M, pure, ◌>>=◌, ◌>>◌, get, modify, set_links, set_error, interrupt_disable,
  interrupt_enable, Err, eok, error, etimeout, efull,
}
use rtthread_nano_to_riscv.Scheduler.{schedule}
use rtthread_nano_to_riscv.Timer.{tick_sub}
use rtthread_nano_to_riscv.Thread.{self}
use rtthread_nano_to_riscv.Ipc.{
  in_thread_context, ipc_list_suspend, ipc_list_resume, ipc_list_resume_all, wait_timer,
}

-- `mb->field = v`
abbrev pub set_mail : ℕ → ℕ → ℕ → Kernel → Kernel
set_mail i at v k = record k {
  mailbox = λ j. record (k.mailbox j) {
    msg_pool = λ o.
        ite (ℕ_discrete j i) (ite (ℕ_discrete o at) v ((k.mailbox j).msg_pool o))
          ((k.mailbox j).msg_pool o);
  };
}

abbrev pub set_entry : ℕ → ℕ → Kernel → Kernel
set_entry i v k = record k {
  mailbox = λ j. record (k.mailbox j) { entry = ite (ℕ_discrete j i) v (k.mailbox j).entry };
}

abbrev pub set_in : ℕ → ℕ → Kernel → Kernel
set_in i v k = record k {
  mailbox =
      λ j. record (k.mailbox j) { in_offset = ite (ℕ_discrete j i) v (k.mailbox j).in_offset };
}

abbrev pub set_out : ℕ → ℕ → Kernel → Kernel
set_out i v k = record k {
  mailbox =
      λ j. record (k.mailbox j) { out_offset = ite (ℕ_discrete j i) v (k.mailbox j).out_offset };
}

abbrev pub set_size : ℕ → ℕ → Kernel → Kernel
set_size i v k = record k {
  mailbox = λ j. record (k.mailbox j) { size = ite (ℕ_discrete j i) v (k.mailbox j).size };
}

abbrev pub set_mb_flag : ℕ → ℕ → Kernel → Kernel
set_mb_flag i v k = record k {
  mailbox = λ j. record (k.mailbox j) { flag = ite (ℕ_discrete j i) v (k.mailbox j).flag };
}

-- `rt_mb_init`, less its call of `rt_object_init`; the buffer keeps what is in it.
unfoldable pub mb_init : ℕ → ℕ → ℕ → M Err
mb_init i size flag = do
  modify (set_mb_flag i flag)
  modify (set_links (list_init (suspended i)))
  modify (set_size i (size % 2 ^ 16))
  modify (set_entry i 0)
  modify (set_in i 0)
  modify (set_out i 0)
  k ← get
  modify (set_links (list_init (suspended (k.mailbox i).senders)))
  pure eok

-- an offset after `++`, which starts again at the size
unfoldable pub step : ℕ → ℕ → ℕ
step size o = if leb size ((o + 1) % 2 ^ 16) then 0 else (o + 1) % 2 ^ 16

-- A call returns a value, or it waits in a thread with what is left of the time to wait, from the tick
-- `start` on.
pub data Waited (A : Type 0) : Type 0 where
  returns : A → Waited A
  waits : (thread : ℕ) → (timeout start : ℕ) → Waited A

-- what is left of a time to wait, an `rt_int32_t`, at the tick `now`
unfoldable pub time_left : ℕ → ℕ → ℕ → ℕ
unfolding tick_sub
time_left timeout start now =
    if leb 1 timeout && ltb timeout (2 ^ 31)
    then (let left = tick_sub timeout (tick_sub now start) in if leb (2 ^ 31) left then 0 else left)
    else timeout

-- A wait on the list `list`, down to the call of `rt_schedule`.
unfoldable pub mb_wait : {A : Type 0} → ℕ → ℕ → ℕ → ℕ → ℕ → Bool → M (Waited A)
mb_wait fuel i list t timeout temp = do
  in_thread_context
  k ← get
  ipc_list_suspend fuel (suspended list) t (k.mailbox i).flag
  wait_timer fuel t timeout
  interrupt_enable temp
  schedule
  pure (waits t timeout k.tick)

-- the end of a call that changed the mailbox: a thread that waits for that goes on
unfoldable pub mb_wake : ℕ → Bool → M (Unit {0})
mb_wake list temp = do
  k ← get
  if list_isempty (suspended list) k.links
      then interrupt_enable temp
      else (do ipc_list_resume (suspended list); interrupt_enable temp; schedule)

-- The mail is stored behind the others.
unfoldable pub mb_put : ℕ → ℕ → M (Unit {0})
unfolding step
mb_put i value = do
  k ← get
  let mb = k.mailbox i
  modify (set_mail i mb.in_offset value)
  modify (set_in i (step mb.size mb.in_offset))
  modify (set_entry i ((mb.entry + 1) % 2 ^ 16))

-- `rt_mb_send_wait` from its loop on, with interrupts disabled
unfoldable pub send_loop : ℕ → ℕ → ℕ → ℕ → Bool → M (Waited Err)
unfolding mb_wait mb_wake mb_put
send_loop fuel i value timeout temp = do
  k ← get
  if (k.mailbox i).entry == (k.mailbox i).size
      then (do
        t ← self
        modify (set_error t eok)
        if timeout == 0
            then (do interrupt_enable temp; pure (returns efull))
            else mb_wait fuel i (k.mailbox i).senders t timeout temp)
      else (do mb_put i value; mb_wake i temp; pure (returns eok))

unfoldable pub mb_send_wait : ℕ → ℕ → ℕ → ℕ → M (Waited Err)
unfolding send_loop
mb_send_wait fuel i value timeout = do
  temp ← interrupt_disable
  k ← get
  if (k.mailbox i).entry == (k.mailbox i).size && timeout == 0
      then (do interrupt_enable temp; pure (returns efull))
      else send_loop fuel i value timeout temp

-- How `rt_mb_send_wait` goes on when thread `t` runs again.
unfoldable pub send_wake : ℕ → ℕ → ℕ → ℕ → ℕ → ℕ → M (Waited Err)
unfolding send_loop time_left
send_wake fuel i value t timeout start = do
  k ← get
  elim (k.thread t).error [
    | eok ↦ (do
      temp ← interrupt_disable
      send_loop fuel i value (time_left timeout start k.tick) temp)
    | e ↦ pure (returns e)
  ]

unfoldable pub mb_send : ℕ → ℕ → ℕ → M (Waited Err)
unfolding mb_send_wait
mb_send fuel i value = mb_send_wait fuel i value 0

-- The first mail is taken out.
unfoldable pub mb_get : ℕ → M ℕ
unfolding step
mb_get i = do
  k ← get
  let mb = k.mailbox i
  modify (set_out i (step mb.size mb.out_offset))
  modify (set_entry i ((mb.entry + 2 ^ 16 - 1) % 2 ^ 16))
  pure (mb.msg_pool mb.out_offset)

-- `rt_mb_recv` from its loop on, with interrupts disabled: an error code, and what is stored in `value`
unfoldable pub recv_loop : ℕ → ℕ → ℕ → Bool → M (Waited (Err × Option ℕ))
unfolding mb_wait mb_wake mb_get
recv_loop fuel i timeout temp = do
  k ← get
  if (k.mailbox i).entry == 0
      then (do
        t ← self
        modify (set_error t eok)
        if timeout == 0
            then (do
              interrupt_enable temp
              modify (set_error t etimeout)
              pure (returns (etimeout, none)))
            else mb_wait fuel i i t timeout temp)
      else (do
        value ← mb_get i
        mb_wake (k.mailbox i).senders temp
        pure (returns (eok, some value)))

unfoldable pub mb_recv : ℕ → ℕ → ℕ → M (Waited (Err × Option ℕ))
unfolding recv_loop
mb_recv fuel i timeout = do
  temp ← interrupt_disable
  k ← get
  if (k.mailbox i).entry == 0 && timeout == 0
      then (do interrupt_enable temp; pure (returns (etimeout, none)))
      else recv_loop fuel i timeout temp

-- How `rt_mb_recv` goes on when thread `t` runs again.
unfoldable pub recv_wake : ℕ → ℕ → ℕ → ℕ → ℕ → M (Waited (Err × Option ℕ))
unfolding recv_loop time_left
recv_wake fuel i t timeout start = do
  k ← get
  elim (k.thread t).error [
    | eok ↦ (do temp ← interrupt_disable; recv_loop fuel i (time_left timeout start k.tick) temp)
    | e ↦ pure (returns (e, none))
  ]

-- RT_IPC_CMD_RESET is 1.
unfoldable pub mb_control : ℕ → ℕ → ℕ → M Err
mb_control fuel i cmd =
    if cmd == 1
    then (do
      level ← interrupt_disable
      ipc_list_resume_all fuel (suspended i)
      k ← get
      ipc_list_resume_all fuel (suspended (k.mailbox i).senders)
      modify (set_entry i 0)
      modify (set_in i 0)
      modify (set_out i 0)
      interrupt_enable level
      schedule
      pure eok)
    else pure error
