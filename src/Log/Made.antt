-- ===== src/Log/Made.antt =====
-- The configuration index that an entry is made with.
use draft.Base.{ℕ, ◌^◌, ◌<◌, ◌≡◌, ap, ◌∙◌, true, Str, arith}
use draft.Endian.{byte, hton64, ntoh64, ntoh64-hton64, hton64_bound}
use draft.Log.Entry.{make_entry, prev_cfg, load64, store64}

load64-store64 : (n : ℕ) → n < 2 ^ 64 → load64 (store64 n) ≡ n
unfolding byte
load64-store64 n h = omega arith

-- A configuration entry points to the index that it was made with.
pub prev_cfg-make_entry :
    (c : ℕ) (text : Str) (index term : ℕ)
    → c < 2 ^ 64
    → prev_cfg (make_entry c text index term true) ≡ c
unfolding prev_cfg make_entry
prev_cfg-make_entry c text index term h =
    ap (ntoh64 true) (load64-store64 (hton64 true c) (hton64_bound true c h))
    ∙ ntoh64-hton64 true c h
