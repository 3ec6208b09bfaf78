-- ===== src/Compressor.antt =====
-- bandwidth_optimizer/compressor.py: payload compression behind a magic header. The `zlib` library is
-- the arguments `deflate` (level and data) and `inflate`, whose `none` is `zlib.error`.
pub mod Laws
use smart_bandwidth_optimize.Base.{
  ℕ, ◌+◌, ◌-◌, Bool, true, false, ◌||◌, Option, none, some, List, [], ◌∷◌, ◌++◌, map, leb, ltb,
  if◌then◌else◌, length, take, drop, or_else,
}
use smart_bandwidth_optimize.Base.Text.{Bytes, codes, text_eq}
use smart_bandwidth_optimize.Base.Float.{Float, num}
use smart_bandwidth_optimize.Config.{OptimizerConfig}

abbrev pub magic : Bytes
magic = codes "SBOC"

pub record CompressionResult : Type 0 where
  pub original_size : ℕ
  pub compressed_size : ℕ
  pub payload : Bytes
  pub was_compressed : Bool

-- `max(0, original_size - compressed_size)`
unfoldable pub space_saved_bytes : CompressionResult → ℕ
space_saved_bytes r = r.original_size - r.compressed_size

unfoldable pub ratio : {F : Type 0} ⦃d : Float F⦄ → CompressionResult → F
ratio ⦃d⦄ r =
    if leb r.original_size 0 then num 1 else d.over (num r.compressed_size) (num r.original_size)

unfoldable pub is_compressed : Bytes → Bool
is_compressed bytes = text_eq (take 4 bytes) magic

abbrev unchanged : Bytes → CompressionResult
unchanged bytes = record {
  original_size = length bytes;
  compressed_size = length bytes;
  payload = bytes;
  was_compressed = false;
}

module _ {F : Type 0} (deflate : ℕ → Bytes → Bytes) where
  unfoldable pub compress : OptimizerConfig F → Bytes → Option ℕ → Option ℕ → CompressionResult
  unfolding is_compressed
  compress c bytes level threshold =
      let size = length bytes in
      if ltb size (or_else threshold c.compression_threshold_bytes) || is_compressed bytes
      then unchanged bytes
      else (let candidate = magic ++ deflate (or_else level c.compression_level) bytes in
          if leb size (length candidate) then unchanged bytes else record {
            original_size = size;
            compressed_size = length candidate;
            payload = candidate;
            was_compressed = true;
          })

  unfoldable pub compress_batch : OptimizerConfig F → List Bytes → List CompressionResult
  compress_batch c = map (λ bytes. compress c bytes none none)

-- The bytes; `none` is the `ValueError` of a corrupt body.
unfoldable pub decompress : (Bytes → Option Bytes) → Bytes → Option Bytes
unfolding is_compressed
decompress inflate bytes = if is_compressed bytes then inflate (drop 4 bytes) else some bytes

unfoldable pub sum_by : (CompressionResult → ℕ) → List CompressionResult → ℕ
sum_by f [] = 0
sum_by f (r ∷ rs) = f r + sum_by f rs

pub record Savings (F : Type 0) : Type 0 where
  pub total_original_bytes : ℕ
  pub total_compressed_bytes : ℕ
  pub bytes_saved : ℕ
  pub overall_ratio : F
  pub packets_compressed : ℕ
  pub packets_total : ℕ

unfoldable pub total_savings : {F : Type 0} ⦃d : Float F⦄ → List CompressionResult → Savings F
total_savings ⦃d⦄ rs =
    let original = sum_by (λ r. r.original_size) rs in
    let compressed = sum_by (λ r. r.compressed_size) rs in
    record {
      total_original_bytes = original;
      total_compressed_bytes = compressed;
      bytes_saved = original - compressed;
      overall_ratio = if leb original 0 then num 1 else d.over (num compressed) (num original);
      packets_compressed = sum_by (λ r. if r.was_compressed then 1 else 0) rs;
      packets_total = length rs;
    }
