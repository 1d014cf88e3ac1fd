-- ===== src/Types.antt =====
-- h/types.h and the constants of h/const.h: the data of the nucleus.
use pandos_phase.Prelude.{ℕ, ◌+◌, ◌*◌, update}

-- A pointer to `pcbTable[i]` or to `semdTable[i]` is the index i, a pointer to anything else is
-- its address; NULL is the address that h/const.h gives it.
abbrev pub Ptr : Type 0
Ptr = ℕ

abbrev pub null : Ptr
null = 0xFFFFFFFF

abbrev pub maxproc : ℕ
maxproc = 20

abbrev pub maxint : ℕ
maxint = 0x7FFFFFFF

abbrev pub state_reg_num : ℕ
state_reg_num = 31

-- `state_t`
pub record Processor : Type 0 where
  pub s_entry_hi : ℕ
  pub s_cause : ℕ
  pub s_status : ℕ
  pub s_pc : ℕ
  pub s_reg : ℕ → ℕ

-- `context_t`
pub record Context : Type 0 where
  pub c_stack_ptr : ℕ
  pub c_status : ℕ
  pub c_pc : ℕ

-- `support_t`; the two arrays of two as functions of the index.
pub record Support : Type 0 where
  pub sup_asid : ℕ
  pub sup_except_state : ℕ → Processor
  pub sup_except_context : ℕ → Context

-- Addresses of bus registers.
abbrev pub ram_base_addr : ℕ
ram_base_addr = 0x10000000

abbrev pub ram_base_size : ℕ
ram_base_size = 0x10000004

abbrev pub tod_lo_addr : ℕ
tod_lo_addr = 0x1000001C

abbrev pub interval_tmr : ℕ
interval_tmr = 0x10000020

abbrev pub timescale_addr : ℕ
timescale_addr = 0x10000024

abbrev pub clock_interval : ℕ
clock_interval = 100000

-- Bits of the status register.
abbrev pub iepbiton : ℕ
iepbiton = 0x4

abbrev pub kupbiton : ℕ
kupbiton = 0x8

abbrev pub tebiton : ℕ
tebiton = 0x08000000

abbrev pub im : ℕ
im = 0x0000FF00

abbrev pub iecon : ℕ
iecon = 0x1

-- Masks of the cause register.
abbrev pub causemask : ℕ
causemask = 0xFF

abbrev pub ipmask : ℕ
ipmask = 0x0000FF00

-- Interrupt lines and devices.
abbrev pub termint : ℕ
termint = 7

abbrev pub devperint : ℕ
devperint = 8

abbrev pub num_devices : ℕ
num_devices = 4 * devperint + 2 * devperint

abbrev pub ack : ℕ
ack = 1

abbrev pub pgfaultexcept : ℕ
pgfaultexcept = 0

abbrev pub generalexcept : ℕ
generalexcept = 1

-- The registers of `state_t` that the nucleus names, as indices of `s_reg`.
abbrev pub s_v0 : ℕ
s_v0 = 1

abbrev pub s_a0 : ℕ
s_a0 = 3

abbrev pub s_a1 : ℕ
s_a1 = 4

abbrev pub s_a2 : ℕ
s_a2 = 5

abbrev pub s_a3 : ℕ
s_a3 = 6

abbrev pub s_t9 : ℕ
s_t9 = 24

abbrev pub s_sp : ℕ
s_sp = 26

-- st.s_reg[r] = w
abbrev pub set_reg : ℕ → ℕ → Processor → Processor
set_reg r w st = record st { s_reg = update st.s_reg r w }
