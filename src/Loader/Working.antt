-- ===== src/Loader/Working.antt =====
-- With firmware whose services do what they are for, the loader does enter the kernel.
use mikanos_m1mac.Outcome.{Outcome}
use mikanos_m1mac.Loader.Firmware.{Firmware}
use mikanos_m1mac.Loader.Boot.{Boot, halted, entered, unfinished, fault}

abbrev pub IsEntered {ℓ} : {F : Type ℓ} → Boot F → Type 0
IsEntered (halted f) = ⊥
IsEntered (entered a c f) = Unit
IsEntered unfinished = ⊥
IsEntered fault = ⊥
