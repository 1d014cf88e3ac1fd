-- ===== src/Initial.antt =====
-- phase2/initial.c: `main` and `createProcess`. The addresses of the functions that the code takes
-- are arguments.
use pandos_phase.Prelude.{ℕ, zero, suc, ◌+◌, not, ◌==◌}
use pandos_phase.Types
use pandos_phase.Types.{Ptr, null, maxproc, Processor, Support, set_reg}
use pandos_phase.Run.{Cmd, pure, unless, panic, ◌>>=◌, ◌>>◌}
use pandos_phase.Words.{add32}
use pandos_phase.Pcb
use pandos_phase.Pcb.{
  Pcbs, alloc_pcb, free_pcb, out_proc_q, empty_child, insert_child, remove_child, out_child,
  init_pcbs, mk_empty_proc_q,
}
use pandos_phase.Asl.{init_asl}
use pandos_phase.Kernel.{
  Kernel, on_pcb, on_asl, leave, modify, set_current, set_ready, fetch, assign, device_semaphore,
  insert_ready, ldit, set_p_s, set_p_time, set_p_support,
}
use pandos_phase.Scheduler.{scheduler}

-- IEPBITON | IM | TEBITON
abbrev pub initial_status : ℕ
initial_status = 0x0800FF04

-- RAMTOP
unfoldable pub ramtop : Cmd Kernel ℕ
ramtop = do
  base ← fetch Types.ram_base_addr
  size ← fetch Types.ram_base_size
  pure (add32 base size)

unfoldable pub create_process : ℕ → Cmd Kernel (Unit {0})
create_process test = do
  p ← on_pcb alloc_pcb
  unless (not (p == null)) (leave panic)
  st ← on_pcb (Pcb.load (λ s. s.p_s) p)
  top ← ramtop
  set_p_s p (
      set_reg Types.s_t9 test
        (record (set_reg Types.s_sp top (record st { s_status = initial_status })) { s_pc = test }))
  on_pcb (Pcb.set_prnt p null)
  on_pcb (Pcb.set_child p null)
  on_pcb (Pcb.set_sib_left p null)
  on_pcb (Pcb.set_sib_right p null)
  set_p_time p 0
  on_pcb (Pcb.set_sem_add p null)
  set_p_support p null
  insert_ready p
  modify λ k. record k { process_count = add32 k.process_count 1 }

-- for (i = 0; i < NUM_DEVICES + 1; i++) deviceSemaphores[i] = 0, by the rounds left
unfoldable pub clear_semaphores : ℕ → ℕ → Cmd Kernel (Unit {0})
clear_semaphores zero i = pure tt
clear_semaphores (suc n) i = do assign (← device_semaphore i) 0; clear_semaphores n (i + 1)

unfoldable pub main : (refill handler test : ℕ) → Cmd Kernel (Unit {0})
main refill handler test = do
  modify λ k. record k { process_count = 0 }
  modify λ k. record k { soft_block_count = 0 }
  set_ready mk_empty_proc_q
  set_current null
  modify λ k. record k {
    pass_up = record {
      tlb_refll_handler = refill;
      tlb_refll_stack_ptr = 0x20001000;
      exception_handler = handler;
      exception_stack_ptr = 0x20001000;
    };
  }
  on_pcb init_pcbs
  on_asl init_asl
  clear_semaphores (Types.num_devices + 1) 0
  ldit Types.clock_interval
  create_process test
  scheduler
  leave panic
