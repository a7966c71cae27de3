-- ===== src/Hybrid/Records.antt =====
-- src/gem/hybrid_runtime.c: the return record on the guest's stack, `stack_record_supported` and
-- `replace_stack_record`.
use metal_sharp_wine_runtime.Prelude.{
  ℕ, ◌-◌, ◌*◌, ◌/◌, ◌%◌, Bool, false, Option, none, some, List, ◌==◌, ltb, if◌then◌else◌, drop,
}
use metal_sharp_wine_runtime.Context.Words.{put64, get64}
use metal_sharp_wine_runtime.Memory.Rules.{page_readwrite}
use metal_sharp_wine_runtime.Memory.Access.{splice}
use metal_sharp_wine_runtime.Hybrid.{GuestOps}

-- `memcpy` of a `uint64_t` out of a page, on a little-endian host; a page has 4096 bytes.
abbrev pub word_of : Option (ℕ × List ℕ) → ℕ
word_of none = 0
word_of (some (v, rest)) = v

unfoldable pub word_at : ℕ → List ℕ → ℕ
unfolding get64
word_at offset page = word_of (get64 (drop offset page))

module _ {Mem : Type 0} (ops : GuestOps Mem) where
  unfoldable pub is_readwrite : Option (List ℕ × ℕ) → Bool
  is_readwrite none = false
  is_readwrite (some (page, protection)) = protection == page_readwrite

  unfoldable pub stack_record_supported : Mem → ℕ → Bool
  unfolding is_readwrite
  stack_record_supported m address = is_readwrite (ops.snapshot_page m (address / 4096 * 4096))

  -- After the snapshot: the old value and the memory after the commit.
  unfoldable pub replace_in_page : Mem → ℕ → ℕ → ℕ → Option (List ℕ × ℕ) → Option (ℕ × Mem)
  unfolding word_at put64
  replace_in_page m page_address offset value none = none
  replace_in_page m page_address offset value (some (page, protection)) =
      if protection == page_readwrite
      then elim (ops.commit_page m page_address (splice offset (put64 value) page)) [
        | none ↦ none
        | some m' ↦ some (word_at offset page, m')
      ]
      else none

  -- The old value of the record and the memory, or `none` after an error, which changes nothing.
  unfoldable pub replace_stack_record : Mem → ℕ → ℕ → Option (ℕ × Mem)
  unfolding replace_in_page
  replace_stack_record m address value =
      let offset = address % 4096 in
      if ltb (4096 - 8) offset
      then none
      else replace_in_page m (address / 4096 * 4096) offset value
          (ops.snapshot_page m (address / 4096 * 4096))
