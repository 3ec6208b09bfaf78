-- ===== src/Compressor/Laws.antt =====
-- Compression and decompression of payloads.
use smart_bandwidth_optimize.Base.{
  ℕ, suc, ◌+◌, ◌≤◌, ◌<◌, ◌≡◌, ◌≢◌, refl, ap, true, false, Option, none, some, List, [], ◌∷◌, ◌++◌,
  arith, ltb, if◌then◌else◌, length, or_else,
}
use smart_bandwidth_optimize.Base.Text.{Bytes, text_eq}
use smart_bandwidth_optimize.Base.Float.{Float}
use smart_bandwidth_optimize.Config.{OptimizerConfig}
use smart_bandwidth_optimize.Compressor.{
  magic, CompressionResult, space_saved_bytes, is_compressed, compress, compress_batch, decompress,
  sum_by, total_savings,
}

module _ {F : Type 0} (deflate : ℕ → Bytes → Bytes) (c : OptimizerConfig F) (bytes : Bytes)
    (level threshold : Option ℕ) where
  -- The sizes that `compress` reports are those of the payload before and after. The payload never
  -- grows; it is marked as compressed exactly when it is smaller, and is then the magic header and the
  -- output of `zlib`; if it is not marked it is the original. A payload below the threshold, or one
  -- that carries the header already, is never compressed.
  pub compress_lem :
      let r = compress deflate c bytes level threshold in
      (r.original_size ≡ length bytes)
      × (r.compressed_size ≡ length r.payload)
      × (r.compressed_size ≤ r.original_size)
      × (r.was_compressed ≡ ltb r.compressed_size r.original_size)
      × (r.was_compressed ≡ false → r.payload ≡ bytes)
      × (r.was_compressed ≡ true
          → r.payload ≡ magic ++ deflate (or_else level c.compression_level) bytes)
      × (length bytes < or_else threshold c.compression_threshold_bytes → r.was_compressed ≡ false)
      × (is_compressed bytes ≡ true → r.was_compressed ≡ false)
  unfolding compress
  compress_lem = ground arith

-- A second pass over a compressed payload changes nothing, whatever the levels and thresholds.
pub compress_again :
    {F : Type 0} (deflate : ℕ → Bytes → Bytes) (c : OptimizerConfig F) (bytes : Bytes)
    (level threshold level' threshold' : Option ℕ)
    → (compress deflate c bytes level threshold).was_compressed ≡ true
    → let once = (compress deflate c bytes level threshold).payload in
      ((compress deflate c once level' threshold').payload ≡ once)
      × ((compress deflate c once level' threshold').was_compressed ≡ false)
unfolding compress text_eq
compress_again deflate c bytes level threshold level' threshold' h = ground arith

-- If `zlib` inflates what it deflates, and the payload does not itself begin with the magic header,
-- then decompressing what `compress` returns gives the payload back, compressed or not.
pub decompress-compress :
    {F : Type 0} (deflate : ℕ → Bytes → Bytes) (inflate : Bytes → Option Bytes)
    (c : OptimizerConfig F) (bytes : Bytes) (level threshold : Option ℕ)
    → ((l : ℕ) (b : Bytes) → inflate (deflate l b) ≡ some b)
    → is_compressed bytes ≡ false
    → decompress inflate (compress deflate c bytes level threshold).payload ≡ some bytes
unfolding decompress compress text_eq
decompress-compress deflate inflate c bytes level threshold law h =
    ground (arith, law (or_else level c.compression_level) bytes)

-- A payload that is the magic header and the compressed form of other bytes is not given back: `compress`
-- sends it as it is, and the receiver makes those bytes of it. `zlib` inflates what it deflates, and the
-- payload is not these bytes.
pub decompress-compress_magic :
    {F : Type 0} (deflate : ℕ → Bytes → Bytes) (inflate : Bytes → Option Bytes)
    (c : OptimizerConfig F) (bytes : Bytes) (l : ℕ) (level threshold : Option ℕ)
    → ((l : ℕ) (b : Bytes) → inflate (deflate l b) ≡ some b)
    → magic ++ deflate l bytes ≢ bytes
    → let sent = compress deflate c (magic ++ deflate l bytes) level threshold in
      (sent.payload ≡ magic ++ deflate l bytes)
      × (decompress inflate sent.payload ≡ some bytes)
      × (decompress inflate sent.payload ≢ some (magic ++ deflate l bytes))
unfolding decompress compress text_eq
decompress-compress_magic deflate inflate c bytes l level threshold law differ =
    let back = law l bytes in ground (arith, back, differ)

sum_by-le :
    {F : Type 0} (deflate : ℕ → Bytes → Bytes) (c : OptimizerConfig F) (payloads : List Bytes)
    → sum_by (λ r. r.compressed_size) (compress_batch deflate c payloads)
        + sum_by space_saved_bytes (compress_batch deflate c payloads)
      ≡ sum_by (λ r. r.original_size) (compress_batch deflate c payloads)
unfolding sum_by compress_batch space_saved_bytes
sum_by-le deflate c [] = refl
sum_by-le deflate c (b ∷ bs) =
    omega (arith, sum_by-le deflate c bs, (compress_lem deflate c b none none).2)

compressed_count-le :
    (rs : List CompressionResult) → sum_by (λ r. if r.was_compressed then 1 else 0) rs ≤ length rs
unfolding sum_by
compressed_count-le [] = omega arith
compressed_count-le (r ∷ rs) = ground (arith, compressed_count-le rs)

length-compress_batch :
    {F : Type 0} (deflate : ℕ → Bytes → Bytes) (c : OptimizerConfig F) (payloads : List Bytes)
    → length (compress_batch deflate c payloads) ≡ length payloads
unfolding compress_batch
length-compress_batch deflate c [] = refl
length-compress_batch deflate c (b ∷ bs) = ap suc (length-compress_batch deflate c bs)

-- The savings of a batch are the sum of the savings of its payloads: none of them hides another's.
total_savings-compress_batch :
    {F : Type 0} ⦃d : Float F⦄ (deflate : ℕ → Bytes → Bytes) (c : OptimizerConfig F)
    (payloads : List Bytes)
    → let s = total_savings {F = F} (compress_batch deflate c payloads) in
      (s.bytes_saved ≡ sum_by space_saved_bytes (compress_batch deflate c payloads))
      × (s.packets_compressed ≤ s.packets_total)
      × (s.packets_total ≡ length payloads)
unfolding total_savings
total_savings-compress_batch deflate c payloads = (
  omega (arith, sum_by-le deflate c payloads),
  compressed_count-le (compress_batch deflate c payloads),
  length-compress_batch deflate c payloads,
)
