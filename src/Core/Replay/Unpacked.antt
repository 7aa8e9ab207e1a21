-- ===== src/Core/Replay/Unpacked.antt =====
-- src/core/replay.rs: the .w3g file, read back. A reader of the file takes the sizes and the number of
-- blocks out of the header, decompresses each block behind it and drops the padding.
use ghostpp_rs.Prelude.{
  ℕ, zero, suc, ◌+◌, ◌-◌, ◌*◌, ◌/◌, ◌%◌, ◌^◌, ◌<◌, ◌≡◌, refl, ap, ◌∙◌, List, [], ◌∷◌, ◌++◌, map,
  arith, length, length-append, length-take, length-drop, length-map, take, drop, replicate,
  length-replicate, All, u16_from_le, u32_from_le, take-append-drop, as_u16, as_u32, get_or,
  take-append_self, drop-append_self, Option, some,
}
use ghostpp_rs.Core.Replay.{ReplayRecorder, build}
use ghostpp_rs.Core.Replay.Container.{
  header_fields, ◌>>=◌, pad, segments, compress_all, blocks_of, header_of, build_and_compress,
}

abbrev join : List (List ℕ) → List ℕ
join [] = []
join (chunk ∷ chunks) = chunk ++ join chunks

abbrev IsSegment : List ℕ → Type 0
IsSegment chunk = length chunk ≡ 8192

segments-IsSegment :
    (n : ℕ) (bytes : List ℕ) → length bytes ≡ n * 8192 → All IsSegment (segments n bytes)
unfolding segments
segments-IsSegment zero bytes h = tt
segments-IsSegment (suc n) bytes h = (
  length-take 8192 bytes ∙ omega arith,
  segments-IsSegment n (drop 8192 bytes) (length-drop 8192 bytes ∙ omega arith),
)

join-segments : (n : ℕ) (bytes : List ℕ) → length bytes ≡ n * 8192 → join (segments n bytes) ≡ bytes
unfolding segments
join-segments zero [] h = refl
join-segments zero (b ∷ bytes) h = absurd (omega arith)
join-segments (suc n) bytes h =
    ap (λ rest. take 8192 bytes ++ rest)
      (join-segments n (drop 8192 bytes) (length-drop 8192 bytes ∙ omega arith))
    ∙ take-append-drop 8192 bytes

length-segments : (n : ℕ) (bytes : List ℕ) → length (segments n bytes) ≡ n
unfolding segments
length-segments zero bytes = refl
length-segments (suc n) bytes = ap suc (length-segments n (drop 8192 bytes))

module _ (bytes : List ℕ) where
  length-pad :
      length (bytes ++ replicate (8192 - length bytes % 8192) 0)
      ≡ length bytes + (8192 - length bytes % 8192)
  length-pad =
      length-append bytes (replicate (8192 - length bytes % 8192) 0)
      ∙ ap (λ n. length bytes + n) (length-replicate (8192 - length bytes % 8192) 0)

  pad_whole :
      length (bytes ++ replicate (8192 - length bytes % 8192) 0)
      ≡ length (bytes ++ replicate (8192 - length bytes % 8192) 0) / 8192 * 8192
  pad_whole = rw (length-pad) (omega arith)

  pad_few :
      length bytes < 2 ^ 32
      → length (bytes ++ replicate (8192 - length bytes % 8192) 0) / 8192 < 2 ^ 32
  pad_few small = rw (length-pad) (omega arith)

-- The reader: `n` blocks, each behind its two sizes and its checksum.
module _ (inflate : List ℕ → List ℕ) where
  unfoldable pub read_data : ℕ → List ℕ → List ℕ
  read_data zero bytes = []
  read_data (suc n) bytes =
      let size = u16_from_le (get_or bytes 0 0) (get_or bytes 1 0) in
      inflate (take size (drop 8 bytes)) ++ read_data n (drop (8 + size) bytes)

  unfoldable pub read_file : List ℕ → List ℕ
  read_file bytes =
      take
        (u32_from_le (get_or bytes 40 0) (get_or bytes 41 0) (get_or bytes 42 0)
          (get_or bytes 43 0))
        (read_data
          (u32_from_le (get_or bytes 44 0) (get_or bytes 45 0) (get_or bytes 46 0)
            (get_or bytes 47 0))
          (drop 68 bytes))

abbrev wire_size : List ℕ → ℕ
wire_size block = u16_from_le (as_u16 (length block) % 256) (as_u16 (length block) / 256 % 256)

drop_sizes :
    (n : ℕ) (block rest : List ℕ)
    → (a b c d e f g h : ℕ) → n ≡ length block
    → drop (8 + n) (a ∷ b ∷ c ∷ d ∷ e ∷ f ∷ g ∷ h ∷ block ++ rest) ≡ rest
drop_sizes n block rest a b c d e f g h same = rw (plus) (drop-append_self n block rest same)
  where
    plus : 8 + n ≡ suc (suc (suc (suc (suc (suc (suc (suc n)))))))
    plus = omega arith

-- zlib's promise for a whole segment: the encoder does not fail, its block fits a 16-bit length and
-- inflates to the segment.
unfoldable pub Unzips : (List ℕ → Option (List ℕ)) → (List ℕ → List ℕ) → (List ℕ → List ℕ) → Type 0
Unzips compress deflate inflate =
    (chunk : List ℕ)
    → length chunk ≡ 8192
    → (compress chunk ≡ some (deflate chunk))
      × ((length (deflate chunk) < 2 ^ 16) × (inflate (deflate chunk) ≡ chunk))

module _ (compress : List ℕ → Option (List ℕ)) (crc32 : List ℕ → ℕ)
    (deflate inflate : List ℕ → List ℕ) (zlib : Unzips compress deflate inflate) where
  compress_all-map :
      (chunks : List (List ℕ))
      → All IsSegment chunks
      → compress_all compress crc32 chunks ≡ some (map deflate chunks)
  unfolding compress_all Unzips
  compress_all-map [] h = refl
  compress_all-map (chunk ∷ chunks) (full, fulls) = rw (done.0, compress_all-map chunks fulls) refl
    where
      done :
          (compress chunk ≡ some (deflate chunk))
          × ((length (deflate chunk) < 2 ^ 16) × (inflate (deflate chunk) ≡ chunk))
      done = unfold Unzips in zlib chunk full

  read_data-blocks_of :
      (chunks : List (List ℕ))
      → All IsSegment chunks
      → read_data inflate (length chunks) (blocks_of compress crc32 (map deflate chunks))
        ≡ join chunks
  unfolding read_data blocks_of Unzips
  read_data-blocks_of [] h = refl
  read_data-blocks_of (chunk ∷ chunks) (full, fulls) =
      rw
        (
          take-append_self size (deflate chunk) (blocks_of compress crc32 (map deflate chunks))
              same,
          drop_sizes size (deflate chunk) (blocks_of compress crc32 (map deflate chunks)) _ _ _ _ _
              _ _ _ same,
          done.1.1,
          read_data-blocks_of chunks fulls,
        )
        refl
    where
      done :
          (compress chunk ≡ some (deflate chunk))
          × ((length (deflate chunk) < 2 ^ 16) × (inflate (deflate chunk) ≡ chunk))
      done = unfold Unzips in zlib chunk full

      size : ℕ
      size = wire_size (deflate chunk)

      same : size ≡ length (deflate chunk)
      same = let small : length (deflate chunk) < 2 ^ 16 = done.1.0 in omega arith

  read_file-header_of :
      (war3_version build_number size : ℕ) (blocks : List (List ℕ)) (ms : ℕ) (rest : List ℕ)
      → size < 2 ^ 32
      → length blocks < 2 ^ 32
      → read_file inflate
          (header_of compress crc32 war3_version build_number size ms blocks ++ rest)
        ≡ take size (read_data inflate (length blocks) rest)
  unfolding read_file header_of header_fields
  read_file-header_of war3_version build_number size blocks ms rest small few =
      rw (word size small, word (length blocks) few) refl
    where
      word :
          (n : ℕ)
          → n < 2 ^ 32
          → u32_from_le
              (as_u32 n % 256)
              (as_u32 n / 256 % 256)
              (as_u32 n / 65536 % 256)
              (as_u32 n / 16777216 % 256)
            ≡ n
      word n h = omega arith

  -- If the encoder takes every whole segment, its blocks fit 16 bits and inflate to the segment, and the
  -- record layer is shorter than 2 ^ 32 bytes, then the file is built, and a reader that takes the size and
  -- the number of blocks from the header, inflates the blocks and drops the padding gets the record layer
  -- back.
  pub build_and_compress-read_file :
      (war3_version build_number : ℕ) (r : ReplayRecorder)
      → length (build r) < 2 ^ 32
      → (build_and_compress compress crc32 war3_version build_number r >>= λ file.
          some (read_file inflate file))
        ≡ some (build r)
  unfolding build_and_compress pad
  build_and_compress-read_file war3_version build_number r small =
      rw (compress_all-map (segments count padded) (segments-IsSegment count padded whole)) (
        ap some (
          read_file-header_of war3_version build_number (length (build r))
            (map deflate (segments count padded)) r.replay_length_ms _ small few
          ∙ rw
              (
                blocks,
                read_data-blocks_of (segments count padded) (segments-IsSegment count padded whole),
                join-segments count padded whole,
              )
              (take-append_self (length (build r)) (build r) zeros refl)))
    where
      zeros : List ℕ
      zeros = replicate (8192 - length (build r) % 8192) 0

      padded : List ℕ
      padded = build r ++ zeros

      count : ℕ
      count = length padded / 8192

      whole : length padded ≡ count * 8192
      whole = pad_whole (build r)

      blocks : length (map deflate (segments count padded)) ≡ length (segments count padded)
      blocks = length-map (segments count padded) deflate

      few : length (map deflate (segments count padded)) < 2 ^ 32
      few = rw (blocks, length-segments count padded) (pad_few (build r) small)
