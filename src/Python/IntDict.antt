-- ===== src/Python/IntDict.antt =====
-- A dict from non-negative integers to counts, as an association list.
use aiobt.Prelude.{ℕ, List, [], ◌∷◌, ◌==◌, if◌then◌else◌, ◌≡◌, arith}

abbrev pub IntDict : Type 0
IntDict = List (ℕ × ℕ)

-- d.get(i, 0)
unfoldable pub get_count : IntDict → ℕ → ℕ
get_count [] i = 0
get_count ((j, n) ∷ d) i = if j == i then n else get_count d i

-- d.pop(i, None)
unfoldable pub pop : IntDict → ℕ → IntDict
pop [] i = []
pop ((j, n) ∷ d) i = let rest = pop d i in if j == i then rest else (j, n) ∷ rest

-- d[i] = n
unfoldable pub put : IntDict → ℕ → ℕ → IntDict
unfolding pop
put d i n = (i, n) ∷ pop d i

pub get_count-pop :
    (d : IntDict) (i j : ℕ) → get_count (pop d i) j ≡ (if i == j then 0 else get_count d j)
unfolding get_count pop
get_count-pop [] i j = ground arith
get_count-pop ((k, n) ∷ d) i j = ground (arith, get_count-pop d i j)

pub get_count-put :
    (d : IntDict) (i n j : ℕ) → get_count (put d i n) j ≡ (if i == j then n else get_count d j)
unfolding get_count put
get_count-put d i n j = ground (arith, get_count-pop d i j)
