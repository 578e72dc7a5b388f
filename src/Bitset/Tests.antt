-- ===== src/Bitset/Tests.antt =====
-- Runs of the bitset.
use rikai_os.Base.{refl, true, false, [], if◌then◌else◌, ◌≡◌, ◌∷◌}
use rikai_os.Bitset.{Bitset, get_bit, set_range}
use rikai_os.Bitset.Range.{within, get_bit-set_range}

abbrev clear : Bitset
clear w i = false

-- A range over three words.
range_bits :
    get_bit 29 (set_range 30 70 true clear)
      ∷ get_bit 30 (set_range 30 70 true clear)
      ∷ get_bit 64 (set_range 30 70 true clear)
      ∷ get_bit 99 (set_range 30 70 true clear)
      ∷ get_bit 100 (set_range 30 70 true clear)
      ∷ []
    ≡ false ∷ true ∷ true ∷ true ∷ false ∷ []
unfolding get_bit set_range
range_bits = refl

get_bit-set_range_example :
    get_bit 99 (set_range 30 70 true clear) ≡ (if within 30 70 99 then true else get_bit 99 clear)
get_bit-set_range_example = get_bit-set_range 30 70 99 true clear
