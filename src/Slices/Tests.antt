-- ===== src/Slices/Tests.antt =====
-- Spans of time in slices (handlers/analysis_api/shards.rs).
use que_qiao_router.Base.{◌+◌, ◌*◌, ◌≡◌, refl, [], ◌∷◌, arith}
use que_qiao_router.Base.Int.{pos, negsuc}
use que_qiao_router.Slices.{day_ms, slice_loop, range_slices}
use que_qiao_router.Slices.Cover.{covers, covering, once, range_slices-covers}

-- Two days and a bit are three slices, the last of them up to the end.
three_slices :
    range_slices (pos 0) (pos (2 * day_ms + 2))
    ≡ (pos 0, pos 57599999) ∷ (pos 57600000, pos 115199999) ∷ (pos 115200000, pos 172800002) ∷ []
unfolding range_slices slice_loop
three_slices = refl

range_slices-covers_example :
    covering (pos 57600000) (range_slices (negsuc 4) (pos 172800002))
    ≡ once (covers (pos 57600000) (negsuc 4, pos 172800002))
range_slices-covers_example =
    range_slices-covers (negsuc 4) (pos 172800002) (pos 57600000) (omega arith)
