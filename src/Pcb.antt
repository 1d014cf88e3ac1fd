-- ===== src/Pcb.antt =====
-- phase2/pcb.c: the table of process control blocks, its free list, the process queues and the
-- process trees. A `pcb_t **tp` is the tail pointer as an argument and the new one as a result.
pub mod Chain
pub mod Detach
pub mod Fifo
pub mod Forest
pub mod Free
pub mod Insert
pub mod Remove
pub mod Samples
pub mod Siblings
pub mod Tree
pub mod Unlink
use pandos_phase.Prelude.{
  ℕ, zero, suc, ◌+◌, ◌-◌, Bool, not, ◌&&◌, ◌||◌, ltb, ◌==◌, if◌then◌else◌, update,
}
use pandos_phase.Types.{Ptr, null, maxproc, state_reg_num, Processor}
use pandos_phase.Run.{Run, Cmd, ok, out_of_fuel, pure, unless, access, ◌>>=◌, ◌>>◌}

-- `pcb_t pcbTable[MAXPROC]`, a memory for each field of `pcb_t`: `p->p_next` is `p_next p`. And
-- the head of the free list.
pub record Pcbs : Type 0 where
  pub p_next : Ptr → Ptr
  pub p_prev : Ptr → Ptr
  pub p_prnt : Ptr → Ptr
  pub p_child : Ptr → Ptr
  pub p_sib_right : Ptr → Ptr
  pub p_sib_left : Ptr → Ptr
  pub p_s : Ptr → Processor
  pub p_time : Ptr → ℕ
  pub p_start_tod : Ptr → ℕ
  pub p_sem_add : Ptr → Ptr
  pub p_support_struct : Ptr → Ptr
  pub pcb_free_h : Ptr

-- `p->f`, a fault unless `p` points into the table; NULL does not.
abbrev pub load : {A : Type 0} → (Pcbs → Ptr → A) → Ptr → Cmd Pcbs A
load f p = access (ltb p maxproc) λ s. ok (f s p) s

-- An assignment to a field of `*p`.
abbrev pub store : Ptr → (Pcbs → Pcbs) → Cmd Pcbs (Unit {0})
store p f = access (ltb p maxproc) λ s. ok tt (f s)

abbrev pub next : Ptr → Cmd Pcbs Ptr
next = load λ s. s.p_next

abbrev pub prev : Ptr → Cmd Pcbs Ptr
prev = load λ s. s.p_prev

abbrev pub prnt : Ptr → Cmd Pcbs Ptr
prnt = load λ s. s.p_prnt

abbrev pub child : Ptr → Cmd Pcbs Ptr
child = load λ s. s.p_child

abbrev pub sib_right : Ptr → Cmd Pcbs Ptr
sib_right = load λ s. s.p_sib_right

abbrev pub sib_left : Ptr → Cmd Pcbs Ptr
sib_left = load λ s. s.p_sib_left

abbrev pub set_next : Ptr → Ptr → Cmd Pcbs (Unit {0})
set_next p q = store p λ s. record s { p_next = update s.p_next p q }

abbrev pub set_prev : Ptr → Ptr → Cmd Pcbs (Unit {0})
set_prev p q = store p λ s. record s { p_prev = update s.p_prev p q }

abbrev pub set_prnt : Ptr → Ptr → Cmd Pcbs (Unit {0})
set_prnt p q = store p λ s. record s { p_prnt = update s.p_prnt p q }

abbrev pub set_child : Ptr → Ptr → Cmd Pcbs (Unit {0})
set_child p q = store p λ s. record s { p_child = update s.p_child p q }

abbrev pub set_sib_right : Ptr → Ptr → Cmd Pcbs (Unit {0})
set_sib_right p q = store p λ s. record s { p_sib_right = update s.p_sib_right p q }

abbrev pub set_sib_left : Ptr → Ptr → Cmd Pcbs (Unit {0})
set_sib_left p q = store p λ s. record s { p_sib_left = update s.p_sib_left p q }

abbrev pub sem_add : Ptr → Cmd Pcbs Ptr
sem_add = load λ s. s.p_sem_add

abbrev pub set_sem_add : Ptr → Ptr → Cmd Pcbs (Unit {0})
set_sem_add p a = store p λ s. record s { p_sem_add = update s.p_sem_add p a }

abbrev get_free : Cmd Pcbs Ptr
get_free s = ok s.pcb_free_h s

abbrev set_free : Ptr → Cmd Pcbs (Unit {0})
set_free p s = ok tt (record s { pcb_free_h = p })

pub free_pcb : Ptr → Cmd Pcbs (Unit {0})
free_pcb p = if p == null then pure tt else (do set_next p (← get_free); set_free p)

-- for (i = 0; i < STATEREGNUM; i++) s_reg[i] = 0, by the rounds left
zero_regs : ℕ → ℕ → (ℕ → ℕ) → ℕ → ℕ
zero_regs zero i r = r
zero_regs (suc n) i r = zero_regs n (i + 1) (update r i 0)

-- The assignments of `allocPcb` to the fields; `p_startTOD` is not among them.
reset_pcb : Ptr → Pcbs → Pcbs
reset_pcb p s = record s {
  p_next = update s.p_next p null;
  p_prev = update s.p_prev p null;
  p_prnt = update s.p_prnt p null;
  p_child = update s.p_child p null;
  p_sib_left = update s.p_sib_left p null;
  p_sib_right = update s.p_sib_right p null;
  p_time = update s.p_time p 0;
  p_sem_add = update s.p_sem_add p null;
  p_support_struct = update s.p_support_struct p null;
  p_s = update s.p_s p (record {
    s_entry_hi = 0;
    s_cause = 0;
    s_status = 0;
    s_pc = 0;
    s_reg = zero_regs state_reg_num 0 (s.p_s p).s_reg;
  });
}

pub alloc_pcb : Cmd Pcbs Ptr
unfolding reset_pcb
alloc_pcb = do
  allocated ← get_free
  if allocated == null
      then pure null
      else (do set_free (← next allocated); store allocated (reset_pcb allocated); pure allocated)

-- for (i = 0; i < MAXPROC - 1; i++) pcbTable[i].p_next = &pcbTable[i + 1], by the rounds left
link_pcbs : ℕ → ℕ → Cmd Pcbs (Unit {0})
link_pcbs zero i = pure tt
link_pcbs (suc n) i = set_next i (i + 1) >> link_pcbs n (i + 1)

pub init_pcbs : Cmd Pcbs (Unit {0})
init_pcbs = do link_pcbs (maxproc - 1) 0; set_next (maxproc - 1) null; set_free 0

abbrev pub mk_empty_proc_q : Ptr
mk_empty_proc_q = null

abbrev pub empty_proc_q : Ptr → Bool
empty_proc_q tp = tp == null

pub insert_proc_q : Ptr → Ptr → Cmd Pcbs Ptr
insert_proc_q tp p =
    if p == null
    then pure tp
    else if tp == null
    then (do set_next p p; set_prev p p; pure p)
    else (do set_next p (← next tp); set_prev p tp; set_prev (← next tp) p; set_next tp p; pure p)

-- The body of the loop of `outProcQ` once `current == p`: the new tail pointer.
pub unlink : Ptr → Ptr → Cmd Pcbs Ptr
unlink tp current = do
  n ← next current
  tp' ← if (current == tp) && (n == current) then pure null else (do
    set_next (← prev current) n
    set_prev (← next current) (← prev current)
    if tp == current then prev current else pure tp)
  set_next current null
  set_prev current null
  pure tp'

-- The `do … while` loop of `outProcQ`: the result and the tail pointer.
out_loop : ℕ → Ptr → Ptr → Ptr → Cmd Pcbs (Ptr × Ptr)
out_loop zero tp p current = λ _. out_of_fuel
out_loop (suc k) tp p current =
    if current == p
    then (do tp' ← unlink tp current; pure (p, tp'))
    else (do c ← next current; t ← next tp; if c == t then pure (null, tp) else out_loop k tp p c)

-- A queue holds each of the MAXPROC blocks at most once, so MAXPROC rounds are enough.
pub out_proc_q : Ptr → Ptr → Cmd Pcbs (Ptr × Ptr)
out_proc_q tp p =
    if (tp == null) || (p == null) then pure (null, tp) else (do out_loop maxproc tp p (← next tp))

pub remove_proc_q : Ptr → Cmd Pcbs (Ptr × Ptr)
remove_proc_q tp = if tp == null then pure (null, tp) else (do out_proc_q tp (← next tp))

pub head_proc_q : Ptr → Cmd Pcbs Ptr
head_proc_q tp = if tp == null then pure null else next tp

pub empty_child : Ptr → Cmd Pcbs Bool
empty_child p = do c ← child p; pure (c == null)

pub insert_child : Ptr → Ptr → Cmd Pcbs (Unit {0})
insert_child parent p = if (parent == null) || (p == null) then pure tt else (do
  first_sib ← child parent
  set_child parent p
  set_prnt p parent
  set_sib_right p first_sib
  set_sib_left p null
  unless (first_sib == null) (set_sib_left first_sib p))

-- The three tests of `outChild`, each on the fields as the ones before left them.
bypass_child : Ptr → Cmd Pcbs (Unit {0})
bypass_child p = do
  parent ← prnt p
  first ← child parent
  unless (not (first == p)) (do set_child parent (← sib_right p))

bypass_left : Ptr → Cmd Pcbs (Unit {0})
bypass_left p = do left ← sib_left p; unless (left == null) (do set_sib_right left (← sib_right p))

bypass_right : Ptr → Cmd Pcbs (Unit {0})
bypass_right p = do
  right ← sib_right p
  unless (right == null) (do set_sib_left right (← sib_left p))

pub out_child : Ptr → Cmd Pcbs Ptr
out_child p = if p == null then pure null else (do
  parent ← prnt p
  if parent == null then pure null else (do
    bypass_child p
    bypass_left p
    bypass_right p
    set_prnt p null
    set_sib_left p null
    set_sib_right p null
    pure p))

pub remove_child : Ptr → Cmd Pcbs Ptr
remove_child p = do e ← empty_child p; if e then pure null else (do out_child (← child p))
