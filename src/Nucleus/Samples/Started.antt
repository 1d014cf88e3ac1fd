-- ===== src/Nucleus/Samples/Started.antt =====
-- The nucleus from its start to the first interrupt of the interval timer.
use pandos_phase.Prelude.{◌≡◌, refl, arith}
use pandos_phase.Run.{Exit, exit}
use pandos_phase.Pcb.Samples.{no_processor}
use pandos_phase.Kernel.{Kernel}
use pandos_phase.Initial.{main}
use pandos_phase.Nucleus.Boot.{Booted, main-Booted}
use pandos_phase.Nucleus.Reach.{Reach, start, meanwhile}
use pandos_phase.Nucleus.Abstract.{Keeps, initial}
use pandos_phase.Nucleus.Reach.Invariant.{Exits-exit, Reach-Keeps}
use pandos_phase.Nucleus.Samples.{kernel}

-- A machine whose device semaphores lie in the RAM.
abbrev machine : Kernel
machine = record kernel { device_semaphores = 0x20002000 }

started :
    (e : Exit) × (k : Kernel) × (main 1000 2000 3000 machine ≡ exit e k)
    × Booted machine 1000 2000 3000 e k
started = Exits-exit (main-Booted machine 1000 2000 3000 (λ j l. ground (arith, l)))

-- The state when the interval timer interrupts the first process.
abbrev ticking : Kernel
ticking = record (started.1) { saved = record no_processor { s_cause = 0x400 } }

ticking-Reach : Reach ticking initial
ticking-Reach =
    meanwhile (start machine 1000 2000 3000 (omega arith) (omega arith) started.2)
      (record { fields = refl; awaited = λ a w. refl })

Reach-Keeps_example : Keeps initial ticking
Reach-Keeps_example = Reach-Keeps ticking initial ticking-Reach
