-- ===== src/LedgerRelay/Packing.antt =====
-- The header survives the amount of a send.
use near_instant.Common.{ℕ, ◌+◌, ◌*◌, ◌%◌, ◌^◌, ◌<◌, ◌≡◌, some, arith}
use near_instant.Common.Bits.{bit_or_multiple}
use near_instant.LedgerRelay.{magic, pack_header, unpack_header}

-- The header as a sum of its fields.
pub pack_header-eq-sum :
    (seq idx total blob_len : ℕ)
    → pack_header seq idx total blob_len
      ≡ magic * 2 ^ 56
        + seq % 2 ^ 16 * 2 ^ 40
        + idx % 2 ^ 12 * 2 ^ 28
        + total % 2 ^ 12 * 2 ^ 16
        + blob_len % 2 ^ 16
unfolding pack_header
pack_header-eq-sum seq idx total blob_len =
    let s = seq % 2 ^ 16 * 2 ^ 40 in
    let i = idx % 2 ^ 12 * 2 ^ 28 in
    let t = total % 2 ^ 12 * 2 ^ 16 in
    let b = blob_len % 2 ^ 16 in
    let m : ℕ = magic * 2 ^ 56 in
    rw (
      bit_or_multiple 56 magic m s (omega arith) (omega arith),
      bit_or_multiple 40 (magic * 2 ^ 16 + seq % 2 ^ 16) (m + s) i (omega arith) (omega arith),
      bit_or_multiple 28 (magic * 2 ^ 28 + seq % 2 ^ 16 * 2 ^ 12 + idx % 2 ^ 12) (m + s + i) t
          (omega arith) (omega arith),
      bit_or_multiple 16
          (magic * 2 ^ 40 + seq % 2 ^ 16 * 2 ^ 24 + idx % 2 ^ 12 * 2 ^ 12 + total % 2 ^ 12)
          (m + s + i + t) b (omega arith) (omega arith),
    )

-- Unpacking a packed header gives each field back, reduced to its width: 16 bits for the sequence
-- number and the length, 12 for the index and the total. So fields within their widths survive. The
-- amount that carries it is less than 2 ^ 63, dust beside the 10 ^ 30 raw of an XNO.
pub unpack_header-pack_header :
    (seq idx total blob_len : ℕ)
    → (unpack_header (pack_header seq idx total blob_len)
        ≡ some (record {
          seq = seq % 2 ^ 16;
          idx = idx % 2 ^ 12;
          total = total % 2 ^ 12;
          blob_len = blob_len % 2 ^ 16;
        }))
      × (pack_header seq idx total blob_len < 2 ^ 63)
unfolding unpack_header
unpack_header-pack_header seq idx total blob_len =
    rw (pack_header-eq-sum seq idx total blob_len) (ground arith, omega arith)
