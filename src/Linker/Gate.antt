-- ===== src/Linker/Gate.antt =====
-- The tests that every interposed function begins with.
use tencryption.Prelude.{◌≡◌, ◌≢◌, refl, true, some, ne→==}
use tencryption.Prelude.Int.{ℤ, pos, eqb_ℤ_ne}
use tencryption.Prelude.Exec.{◌>>=◌}
use tencryption.Platform.{Platform, Process, Run, Syscall}
use tencryption.Access.{is_trust_process, get_domain_state}
use tencryption.Linker.{gate}

-- All `linker_*` pointers are loaded.
abbrev pub AllLinked : {W : Type 0} → Process W → Type 0
AllLinked s = (c : Syscall) → s.linked c ≡ true

-- The library runs in `s`, the process is trusted, and the lookup of its domain's state ends in
-- `t` with encryption on.
pub record SeesPlain (P : Platform) (s t : Process P.World) : Type 0 where
  pub running : s.linker_running_state ≢ 0
  pub loaded : AllLinked s
  pub trusted : is_trust_process P s.world ≡ 1
  pub state : ℤ
  pub looked_up : get_domain_state P s ≡ some (state, t)
  pub enabled : state ≢ pos 0
  pub linked : AllLinked t

module _ (P : Platform) {A : Type 0} (c : Syscall) (failed : A) (plain transparent : Run P A) where
  pub gate_transparent :
      {s t : Process P.World}
      → SeesPlain P s t
      → gate P c failed plain transparent s ≡ transparent t
  unfolding gate
  gate_transparent {s} {t} sees =
      rw
        (
          ne→== s.linker_running_state 0 sees.running,
          ne→== s.linker_running_state 0 sees.running,
          sees.loaded c,
          sees.trusted,
          ◌>>=◌,
          sees.looked_up,
          eqb_ℤ_ne sees.state (pos 0) sees.enabled,
        )
        refl
