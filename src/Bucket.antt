-- ===== src/Bucket.antt =====
-- getBucketIndexForKey of cache.go and url_lock.go, with the checksum of hash/crc32 that it calls.
-- math.Mod on the floats of a checksum and of a bucket number is exact: both lie below 2^53.
use Prim.Native.Nat.{bit_xor}
use cdp_cache.Base.{ℕ, zero, suc, ◌/◌, ◌%◌, ◌<◌, ◌≡◌, refl, [], ◌∷◌, ◌==◌, if◌then◌else◌, arith}
use cdp_cache.Base.Text.{Str, codes}

-- One bit of the reflected polynomial of IEEE.
crc_bit : ℕ → ℕ
crc_bit c = let half = c / 2 in if c % 2 == 1 then bit_xor half 0xEDB88320 else half

crc_bits : ℕ → ℕ → ℕ
crc_bits zero c = c
crc_bits (suc n) c = crc_bits n (crc_bit c)

crc_bytes : ℕ → Str → ℕ
crc_bytes c [] = c
crc_bytes c (b ∷ s) = crc_bytes (crc_bits 8 (bit_xor c b)) s

-- crc32.ChecksumIEEE
unfoldable pub checksum_ieee : Str → ℕ
unfolding crc_bit crc_bits crc_bytes
checksum_ieee s = bit_xor (crc_bytes 0xFFFFFFFF s) 0xFFFFFFFF

-- A number of buckets that is 0 leaves no valid index, and so does the result here.
unfoldable pub bucket_index : ℕ → Str → ℕ
bucket_index buckets_num key = checksum_ieee key % buckets_num

pub bucket_index-lt : (n : ℕ) (key : Str) → 0 < n → bucket_index n key < n
unfolding bucket_index
bucket_index-lt n key h = omega arith

checksum_check_value : checksum_ieee (codes "123456789") ≡ 0xCBF43926
unfolding checksum_ieee
checksum_check_value = refl
