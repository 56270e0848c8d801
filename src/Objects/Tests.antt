-- ===== src/Objects/Tests.antt =====
-- lua/lobject.c: numbers and names at concrete inputs.
use primemover.Prelude.{ℕ, ◌+◌, ◌^◌, ◌≤◌, ◌<◌, codes, some, ◌≡◌, refl, arith}
use primemover.Prelude.Int.{pos}
use primemover.Objects.{int2fb_loop, int2fb, fb2int, log2, chunkid}
use primemover.Objects.Numbers.{RoundsUp, fb2int-int2fb, log2_bounds}
use primemover.Objects.Names.{FitsIn, chunkid-FitsIn}

fb2int-int2fb_example : RoundsUp 1000 (fb2int (int2fb 1000))
fb2int-int2fb_example = fb2int-int2fb 1000 (omega arith)

int2fb_1000 : fb2int (int2fb 1000) ≡ some 1024
unfolding int2fb fb2int int2fb_loop
int2fb_1000 = refl

log2_bounds_example :
    (l : ℕ) × (log2 70000 ≡ some (pos l)) × (2 ^ l ≤ 70000) × (70000 < 2 ^ (l + 1))
log2_bounds_example = log2_bounds 70000 (omega arith) (omega arith)

chunkid-FitsIn_example : FitsIn 17 (chunkid (codes "@src/pm.lua") 17)
chunkid-FitsIn_example = chunkid-FitsIn (codes "@src/pm.lua") 17 (omega arith) (omega arith)

end_of_name : chunkid (codes "@src/pm.lua") 17 ≡ some (codes "...rc/pm.lua")
unfolding chunkid
end_of_name = refl
