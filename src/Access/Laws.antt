-- ===== src/Access/Laws.antt =====
-- Which processes are trusted.
use tencryption.Prelude.{◌+◌, ◌*◌, ◌≡◌, ◌≢◌, ◌⊎◌, ◌↔◌, arith}
use tencryption.Prelude.Int.{pos, eqb_ℤ_sound, eqb_ℤ_refl}
use tencryption.Platform.{Platform}
use tencryption.Access.{get_process_user, get_process_uid, get_process_domain, is_trust_process}

module _ (P : Platform) (w : P.World) where
  -- The user and the application id of a process together give back its uid.
  pub user_uid_roundtrip : get_process_user P w * P.aid_user + get_process_uid P w ≡ P.getuid w
  unfolding get_process_user get_process_uid
  user_uid_roundtrip = omega arith

  -- `is_trust_process` answers 1 exactly for a process in a domain other than 0 that is either
  -- the media server of user 0 or runs as the user that the domain names, and 0 for all others.
  abbrev pub Trusted : Type 0
  Trusted =
      (get_process_domain P w ≢ pos 0)
      × (((get_process_user P w ≡ 0) × (get_process_uid P w ≡ P.aid_media))
          ⊎ ((get_process_user P w ≢ 0) × (get_process_domain P w ≡ pos (get_process_user P w))))

  pub trust_iff :
      ((is_trust_process P w ≡ 1) ↔ Trusted)
      × ((is_trust_process P w ≡ 0) ⊎ (is_trust_process P w ≡ 1))
  unfolding is_trust_process
  trust_iff = ((sound, complete), ground arith)
    where
      sound : is_trust_process P w ≡ 1 → Trusted
      sound h = ground (
        arith,
        eqb_ℤ_sound (get_process_domain P w) (pos (get_process_user P w)),
        eqb_ℤ_refl (pos 0),
      )

      complete : Trusted → is_trust_process P w ≡ 1
      complete h = ground (
        arith,
        eqb_ℤ_sound (get_process_domain P w) (pos 0),
        eqb_ℤ_refl (pos (get_process_user P w)),
      )
