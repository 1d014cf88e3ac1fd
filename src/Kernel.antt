-- ===== src/Kernel.antt =====
-- The state of the nucleus: the global variables of phase2/initial.c, the modules below it, and
-- the memory and registers of the machine that the nucleus uses.
use pandos_phase.Prelude.{ℕ, ◌+◌, ◌*◌, ◌%◌, ◌==◌, ltb, not, if◌then◌else◌, update}
use pandos_phase.Pcb
use pandos_phase.Types.{
  Ptr, Processor, Support, set_reg, null, num_devices, tod_lo_addr, timescale_addr, interval_tmr,
}
use pandos_phase.Run.{Exit, Cmd, ok, exit, fault, access, pure, put_back, ◌>>=◌, ◌>>◌}
use pandos_phase.Words.{w32, sdiv32, mul32, add32, sub32}
use pandos_phase.Pcb.{Pcbs, insert_proc_q}
use pandos_phase.Asl.{Asl}

-- `passupvector_t`
pub record PassUpVector : Type 0 where
  pub tlb_refll_handler : ℕ
  pub tlb_refll_stack_ptr : ℕ
  pub exception_handler : ℕ
  pub exception_stack_ptr : ℕ

-- `word` is the memory of `int` and `unsigned int` objects by address, the bus registers among
-- them; `state_at` and `support_at` are the `state_t` and `support_t` objects of processes. All
-- three are total: but for the two tests below, of an index of the device semaphores and of the
-- state that SYS1 is given, an access to them is no fault.
-- `device_semaphores` is the address of that array; `saved` is the state at BIOSDATAPAGE. `timer`
-- and `status` are the arguments of the last calls of setTIMER and setSTATUS.
pub record Kernel : Type 0 where
  pub asl : Asl
  pub process_count : ℕ
  pub soft_block_count : ℕ
  pub ready_queue : Ptr
  pub current_process : Ptr
  pub device_semaphores : ℕ
  pub word : ℕ → ℕ
  pub state_at : ℕ → Processor
  pub support_at : ℕ → Support
  pub saved : Processor
  pub pass_up : PassUpVector
  pub timer : ℕ
  pub status : ℕ

abbrev pub on_asl : {A : Type 0} → Cmd Asl A → Cmd Kernel A
on_asl m k = put_back (λ t. record k { asl = t }) (m k.asl)

abbrev pub on_pcb : {A : Type 0} → Cmd Pcbs A → Cmd Kernel A
on_pcb m k = put_back (λ t. record k { asl = record (k.asl) { pcbs = t } }) (m k.asl.pcbs)

-- A call of libumps that does not return.
abbrev pub leave : {A : Type 0} → Exit → Cmd Kernel A
leave e k = exit e k

abbrev pub gets : {A : Type 0} → (Kernel → A) → Cmd Kernel A
gets f k = ok (f k) k

abbrev pub modify : (Kernel → Kernel) → Cmd Kernel (Unit {0})
modify f k = ok tt (f k)

abbrev pub current : Cmd Kernel Ptr
current = gets λ k. k.current_process

abbrev pub set_current : Ptr → Cmd Kernel (Unit {0})
set_current p = modify λ k. record k { current_process = p }

abbrev pub ready : Cmd Kernel Ptr
ready = gets λ k. k.ready_queue

abbrev pub set_ready : Ptr → Cmd Kernel (Unit {0})
set_ready q = modify λ k. record k { ready_queue = q }

abbrev pub fetch : ℕ → Cmd Kernel ℕ
fetch a = gets λ k. k.word a

abbrev pub assign : ℕ → ℕ → Cmd Kernel (Unit {0})
assign a w = modify λ k. record k { word = update k.word a w }

abbrev pub set_saved : (Processor → Processor) → Cmd Kernel (Unit {0})
set_saved f = modify λ k. record k { saved = f k.saved }

-- &deviceSemaphores[i]
abbrev pub device_semaphore : ℕ → Cmd Kernel ℕ
device_semaphore i =
    access (ltb i (num_devices + 1)) (gets λ k. (k.device_semaphores + 4 * i) % w32)

-- The state at an address that is not NULL.
abbrev pub state_of : ℕ → Cmd Kernel Processor
state_of a = access (not (a == null)) (gets λ k. k.state_at a)

abbrev pub set_timer : ℕ → Cmd Kernel (Unit {0})
set_timer t = modify λ k. record k { timer = t }

abbrev pub set_status : ℕ → Cmd Kernel (Unit {0})
set_status w = modify λ k. record k { status = w }

-- STCK; a division by a zero timescale is a fault.
unfoldable pub stck : Cmd Kernel ℕ
stck = do
  scale ← fetch timescale_addr
  tod ← fetch tod_lo_addr
  if scale == 0 then (λ _. fault) else pure (sdiv32 tod scale)

-- LDIT
unfoldable pub ldit : ℕ → Cmd Kernel (Unit {0})
ldit t = do scale ← fetch timescale_addr; assign interval_tmr (mul32 t scale)

-- insertProcQ(&readyQueue, p)
unfoldable pub insert_ready : Ptr → Cmd Kernel (Unit {0})
insert_ready p = do q ← on_pcb (insert_proc_q (← ready) p); set_ready q

abbrev pub set_p_s : Ptr → Processor → Cmd Kernel (Unit {0})
set_p_s p st = on_pcb (Pcb.store p λ s. record s { p_s = update s.p_s p st })

abbrev pub set_p_time : Ptr → ℕ → Cmd Kernel (Unit {0})
set_p_time p t = on_pcb (Pcb.store p λ s. record s { p_time = update s.p_time p t })

abbrev pub set_p_start_tod : Ptr → ℕ → Cmd Kernel (Unit {0})
set_p_start_tod p t = on_pcb (Pcb.store p λ s. record s { p_start_tod = update s.p_start_tod p t })

abbrev pub set_p_support : Ptr → ℕ → Cmd Kernel (Unit {0})
set_p_support p a =
    on_pcb (Pcb.store p λ s. record s { p_support_struct = update s.p_support_struct p a })

abbrev pub saved : Cmd Kernel Processor
saved = gets λ k. k.saved

-- savedState->s_reg[r]
abbrev pub saved_reg : ℕ → Cmd Kernel ℕ
saved_reg r = gets λ k. k.saved.s_reg r

abbrev pub set_saved_reg : ℕ → ℕ → Cmd Kernel (Unit {0})
set_saved_reg r w = set_saved (set_reg r w)

-- memcopy(&(p->p_s), (state_t *)BIOSDATAPAGE, sizeof(state_t))
abbrev pub save_state : Ptr → Cmd Kernel (Unit {0})
save_state p = do set_p_s p (← saved)

unfoldable pub update_cpu_time : Cmd Kernel (Unit {0})
update_cpu_time = do
  tod ← stck
  p ← current
  time ← on_pcb (Pcb.load (λ s. s.p_time) p)
  start ← on_pcb (Pcb.load (λ s. s.p_start_tod) p)
  set_p_time p (add32 time (sub32 tod start))
  set_p_start_tod p tod
