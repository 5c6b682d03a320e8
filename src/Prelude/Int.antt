-- ===== src/Prelude/Int.antt =====
-- C's signed results: `pos n` is n, `negsuc n` is -(n + 1). The error codes are those of
-- include/sf.h.
use Prim.Native.Nat.{ℕ}

pub data ℤ : Type 0 where
  pos : ℕ → ℤ
  negsuc : ℕ → ℤ

abbrev pub minus_one : ℤ
minus_one = negsuc 0

abbrev pub sf_ok : ℤ
sf_ok = pos 0

abbrev pub sf_invalid : ℤ
sf_invalid = negsuc 0

abbrev pub sf_denied : ℤ
sf_denied = negsuc 1

abbrev pub sf_bad_format : ℤ
sf_bad_format = negsuc 2

abbrev pub sf_busy : ℤ
sf_busy = negsuc 6

abbrev pub sf_timeout : ℤ
sf_timeout = negsuc 8

abbrev pub sf_stale_handle : ℤ
sf_stale_handle = negsuc 11

abbrev pub sf_revoked : ℤ
sf_revoked = negsuc 12

abbrev pub sf_would_block : ℤ
sf_would_block = negsuc 14

abbrev pub sf_not_found : ℤ
sf_not_found = negsuc 15

abbrev pub sf_no_space : ℤ
sf_no_space = negsuc 17
