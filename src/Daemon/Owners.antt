-- ===== src/Daemon/Owners.antt =====
-- daemon/cmccd.c, the child process: mode and owner of the files below the secure directory.
use Prim.Native.Nat.{bit_or}
use tencryption.Prelude.{
  ℕ, zero, suc, ◌≡◌, ◌∙◌, refl, none, some, List, [], ◌∷◌, ◌==◌, if◌then◌else◌,
}
use tencryption.Prelude.Int.{ℤ, pos, eqb_ℤ}
use tencryption.Prelude.Exec.{Exec, pure, ◌>>=◌, ◌>>◌}
use tencryption.SecureDirectory.{security_directory_path}
use tencryption.Platform.{FilePath}

-- What it takes from libc and Android. `nftw` calls its function on what it finds, with a limit of
-- open descriptors and flags; `sleep` takes seconds.
pub record Owners : Type 1 where
  pub World : Type 0
  pub chmod : FilePath → ℕ → World → ℤ × World
  pub chown : FilePath → ℕ → ℕ → World → ℤ × World
  pub nftw : FilePath → (FilePath → Exec World ℤ) → ℕ → ℕ → Exec World ℤ
  pub sleep : ℕ → World → World
  pub aid_container : ℕ
  pub ftw_depth : ℕ
  pub ftw_mount : ℕ
  pub ftw_phys : ℕ
  pub sigalrm : ℕ

-- A walk through a list of files, which ends early at a result that is not 0.
unfoldable pub walk : {W : Type 0} → (FilePath → Exec W ℤ) → List FilePath → Exec W ℤ
walk visit [] = pure (pos 0)
walk visit (file ∷ files) = do
  code ← visit file
  if eqb_ℤ code (pos 0) then walk visit files else pure code

module _ (O : Owners) where
  unfoldable pub restorecon : FilePath → Exec O.World ℤ
  restorecon file w =
      let (mode_set, w1) = O.chmod file 509 w in
      let (owner_set, w2) = O.chown file O.aid_container O.aid_container w1 in some (pos 0, w2)

  unfoldable pub nftw_restorecon : FilePath → Exec O.World ℤ
  unfolding restorecon
  nftw_restorecon file = do restorecon file; pure (pos 0)

  unfoldable pub restorecon_recursive : FilePath → Exec O.World ℤ
  restorecon_recursive dir =
      O.nftw dir nftw_restorecon 20 (bit_or (bit_or O.ftw_depth O.ftw_mount) O.ftw_phys)

  unfoldable pub restorecon_handler : ℕ → Exec O.World Unit
  unfolding restorecon_recursive
  restorecon_handler signum =
      if signum == O.sigalrm
      then (do restorecon_recursive security_directory_path; pure tt)
      else pure tt

  -- So many rounds of the endless loop of the child.
  unfoldable pub child_rounds : ℕ → Exec O.World Unit
  unfolding restorecon_recursive
  child_rounds zero w = pure tt w
  child_rounds (suc n) w = elim (restorecon_recursive security_directory_path (O.sleep 2 w)) [
    | none ↦ none
    | some (code, w') ↦ child_rounds n w'
  ]

  -- The files after each of the list has got its mode and owner, in order.
  owned : List FilePath → O.World → O.World
  owned [] w = w
  owned (file ∷ files) w =
      owned files (O.chown file O.aid_container O.aid_container (O.chmod file 509 w).1).1

  walk-owned :
      (files : List FilePath) (w : O.World)
      → walk nftw_restorecon files w ≡ some (pos 0, owned files w)
  unfolding walk owned nftw_restorecon
  walk-owned [] w = refl
  walk-owned (file ∷ files) w = walk-owned files _

  -- Where `nftw` walks through the files of a list, all of them get the mode and the owner, since no
  -- visit ends the walk.
  restorecon_recursive_lem :
      (dir : FilePath) (files : List FilePath) (w : O.World)
      → ((visit : FilePath → Exec O.World ℤ) (limit flags : ℕ)
          → O.nftw dir visit limit flags w ≡ walk visit files w)
      → restorecon_recursive dir w ≡ some (pos 0, owned files w)
  unfolding restorecon_recursive
  restorecon_recursive_lem dir files w walks = walks nftw_restorecon _ _ ∙ walk-owned files w
