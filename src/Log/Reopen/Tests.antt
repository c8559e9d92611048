-- ===== src/Log/Reopen/Tests.antt =====
-- The log of one entry, written and read again, and a first boot.
use draft.Base.{◌≡◌, refl, true, some, [], ◌∷◌, arith}
use draft.Log.Room.{rc_good}
use draft.Log.{append}
use draft.Log.Chains.{last_cfg}
use draft.Log.Tests.{
  one_entry, config_a, one_entry-Rep, small_disk, second, prev_cfg-second, one_entry-Chain,
}
use draft.Log.Reopen.{init}
use draft.Log.Reopen.Recover.{saved, Durable, init-saved, init-append}

one_entry-last_cfg : one_entry.cfg_entry_index ≡ last_cfg 0 (config_a ∷ [])
unfolding last_cfg
one_entry-last_cfg = refl

init-saved_example : init (saved one_entry) ≡ some (one_entry, rc_good)
init-saved_example = init-saved one_entry (config_a ∷ []) one_entry-Rep one_entry-last_cfg

init-append_example :
    Durable (config_a ∷ []) (second ∷ []) (append small_disk (second ∷ []) true one_entry)
init-append_example =
    init-append small_disk one_entry (config_a ∷ []) (second ∷ []) true one_entry-Rep
      one_entry-last_cfg ((omega arith), refl, tt)
      ((λ _. ((omega (arith, prev_cfg-second)), rw prev_cfg-second one_entry-Chain)), tt)
