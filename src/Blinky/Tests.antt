-- ===== src/Blinky/Tests.antt =====
-- The theorems on the blinking programs at concrete inputs.
use railab_nuttx_code.Prelude.{◌≡◌, refl, [], ◌∷◌, map, none, some, pos, negsuc}
use railab_nuttx_code.Blinky.{blinky1_main, blinky2_main}
use railab_nuttx_code.Blinky.Toggles.{led_of, blinky1_toggles, blinky1_like_blinky2}

blinky1_toggles_example :
    (blinky1_main (pos 3) 6 (pos 0 ∷ pos 0 ∷ []) ≡ (7 ∷ 6 ∷ [], none))
    × (blinky1_main (pos 3) 6 (pos 0 ∷ pos 0 ∷ negsuc 4 ∷ pos 0 ∷ [])
        ≡ (7 ∷ 6 ∷ 7 ∷ [], some (negsuc 0)))
blinky1_toggles_example =
    blinky1_toggles (pos 3) 6 (pos 0 ∷ pos 0 ∷ []) (negsuc 4) (pos 0 ∷ []) refl (refl, (refl, tt))
      refl

blinky1_like_blinky2_example :
    (blinky1_main (pos 3) 0 (pos 0 ∷ pos 0 ∷ [])).0 ≡ map led_of (blinky2_main 2)
blinky1_like_blinky2_example =
    blinky1_like_blinky2 (pos 3) (pos 0 ∷ pos 0 ∷ []) refl (refl, (refl, tt))
