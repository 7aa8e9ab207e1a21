-- ===== src/Core/Replay/Container.antt =====
-- src/core/replay.rs: build_and_compress, the .w3g file around the record layer. flate2's zlib encoder
-- and the CRC-32 of crc32fast are arguments; the encoder may fail. The sizes are taken as u32 and u16.
use Prim.Native.Nat.{bit_and, bit_or, bit_xor}
use ghostpp_rs.Prelude.{
  ℕ, zero, suc, ◌+◌, ◌-◌, ◌*◌, ◌/◌, ◌%◌, ◌^◌, List, [], ◌∷◌, ◌++◌, Option, none, some, length, take,
  drop, replicate, u16_le, u32_le, as_u16, as_u32,
}
use ghostpp_rs.Prelude.Text.{codes}
use ghostpp_rs.Core.Replay.{ReplayRecorder, build}

infixl 1 ◌>>=◌
abbrev pub ◌>>=◌ {ℓ κ} : {A : Type ℓ} {B : Type κ} → Option A → (A → Option B) → Option B
none >>= f = none
some a >>= f = f a

abbrev pub segment : ℕ
segment = 8192

-- Zeros up to the next full segment, a whole one behind a full segment.
unfoldable pub pad : List ℕ → List ℕ
pad bytes = bytes ++ replicate (segment - length bytes % segment) 0

-- `n` segments.
unfoldable pub segments : ℕ → List ℕ → List (List ℕ)
segments zero bytes = []
segments (suc n) bytes = take segment bytes ∷ segments n (drop segment bytes)

unfoldable pub block_bytes : List (List ℕ) → ℕ
block_bytes [] = 0
block_bytes (block ∷ blocks) = length block + block_bytes blocks

-- `b"Warcraft III recorded game\x1A\0"`.
abbrev pub magic : List ℕ
magic = codes "Warcraft III recorded game" ++ 26 ∷ 0 ∷ []

-- The header without its checksum.
unfoldable pub header_fields : ℕ → ℕ → ℕ → ℕ → ℕ → List (List ℕ) → List ℕ
header_fields war3_version build_number size replay_length_ms total blocks =
    magic
    ++ (u32_le 68
        ++ (u32_le (as_u32 (68 + as_u32 total + as_u32 (length blocks) * 8))
            ++ (u32_le 1
                ++ (u32_le (as_u32 size)
                    ++ (u32_le (as_u32 (length blocks))
                        ++ (codes "PX3W"
                            ++ (u32_le war3_version
                                ++ (u16_le build_number
                                    ++ (u16_le 32768 ++ u32_le replay_length_ms)))))))))

-- `c ^= c >> 16`.
abbrev pub fold : ℕ → ℕ
fold c = bit_xor c (c / 2 ^ 16)

module _ (compress : List ℕ → Option (List ℕ)) (crc32 : List ℕ → ℕ) where
  unfoldable pub compress_all : List (List ℕ) → Option (List (List ℕ))
  compress_all [] = some []
  compress_all (chunk ∷ chunks) = do
    block ← compress chunk
    blocks ← compress_all chunks
    some (block ∷ blocks)

  -- The sizes of a block before and after.
  abbrev pub block_sizes : List ℕ → List ℕ
  block_sizes block = u16_le (as_u16 (length block)) ++ u16_le segment

  -- The low half from the block's header, the high half from its data.
  unfoldable pub block_crc : List ℕ → ℕ
  block_crc block =
      bit_or (bit_and (fold (crc32 (block_sizes block ++ u32_le 0))) 65535)
        (fold (crc32 block) * 2 ^ 16 % 2 ^ 32)

  unfoldable pub blocks_of : List (List ℕ) → List ℕ
  blocks_of [] = []
  blocks_of (block ∷ blocks) =
      block_sizes block ++ (u32_le (block_crc block) ++ (block ++ blocks_of blocks))

  unfoldable pub header_of : ℕ → ℕ → ℕ → ℕ → List (List ℕ) → List ℕ
  header_of war3_version build_number size replay_length_ms blocks =
      let fields =
        header_fields war3_version build_number size replay_length_ms (block_bytes blocks) blocks in
      fields ++ u32_le (crc32 (fields ++ u32_le 0))

  unfoldable pub build_and_compress : ℕ → ℕ → ReplayRecorder → Option (List ℕ)
  build_and_compress war3_version build_number r = do
    let padded = pad (build r)
    blocks ← compress_all (segments (length padded / segment) padded)
    some (
        header_of war3_version build_number (length (build r)) r.replay_length_ms blocks
        ++ blocks_of blocks)
