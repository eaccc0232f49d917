-- ===== src/Tests/Texts.antt =====
-- Line breaks and fractions of seconds at concrete inputs.
use open_gauss_connector_odb.Base.{◌≡◌, refl, true, false, [], ◌∷◌, none, some}
use open_gauss_connector_odb.Base.Int.{pos, ◌-ℤ◌}
use open_gauss_connector_odb.Convert.Linefeeds.{convert_linefeeds, linefeed_loop}
use open_gauss_connector_odb.Convert.Fraction.{effective_fraction, fraction_loop}

-- With room for two characters a line break fills it, and its null stands behind it.
break_in_two : convert_linefeeds (10 ∷ []) 2 true true ≡ some (13 ∷ 10 ∷ [], true)
unfolding convert_linefeeds linefeed_loop
break_in_two = refl

-- The flag has to have a place.
no_flag : convert_linefeeds (b'a' ∷ []) 2 true false ≡ none
unfolding convert_linefeeds
no_flag = refl

hundred_thousand : effective_fraction 9 120000000 ≡ some (12, pos 2)
unfolding effective_fraction fraction_loop ◌-ℤ◌
hundred_thousand = refl
