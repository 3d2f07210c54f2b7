-- ===== src/Abi/Buffers.antt =====
-- crates/hmcl-runtime-abi/src/lib.rs: slices, buffers and handles. The pointer
-- of a buffer is an address, and null is zero.
use aura_rust_runtime_host.Base.{
  ℕ, Bool, true, false, Option, none, some, List, [], ◌∷◌, length, ◌≡◌, refl, arith, not, ◌&&◌, leb,
  ◌==◌, if◌then◌else◌,
}

-- `HmclSlice`: whether its pointer is null, and the bytes that its length says are readable behind it.
pub record Slice : Type 0 where
  pub is_null : Bool
  pub content : List ℕ

-- The slice of some bytes of the caller's own: null where there are none.
unfoldable pub borrowed_slice : List ℕ → Slice
borrowed_slice bytes = record { is_null = length bytes == 0; content = bytes }

-- What the receiver makes of a slice, or nothing where its pointer does not suit its length.
unfoldable pub read_slice : Slice → Option (List ℕ)
read_slice slice =
    if length slice.content == 0
    then (if slice.is_null then some [] else none)
    else if slice.is_null
    then none
    else some slice.content

-- Whether a pointer is null, and whether it is aligned.
pub record Pointer : Type 0 where
  pub null : Bool
  pub aligned : Bool

abbrev pub valid_pointer : Pointer
valid_pointer = record { null = false; aligned = true }

-- `HmclOwnedBuffer`
pub record OwnedBuffer : Type 0 where
  pub data_pointer : ℕ
  pub len : ℕ
  pub capacity : ℕ

abbrev pub empty_buffer : OwnedBuffer
empty_buffer = record { data_pointer = 0; len = 0; capacity = 0 }

unfoldable pub has_valid_layout : OwnedBuffer → Bool
has_valid_layout b =
    if b.capacity == 0
    then b.data_pointer == 0 && b.len == 0
    else not (b.data_pointer == 0) && leb b.len b.capacity

unfoldable pub satisfies_allocation_request : OwnedBuffer → ℕ → Bool
unfolding has_valid_layout
satisfies_allocation_request b requested =
    has_valid_layout b && b.len == 0 && leb requested b.capacity

-- `HmclHandleId`
pub record HandleId : Type 0 where
  pub object : ℕ
  pub version : ℕ

pub read_slice-borrowed_slice : (bytes : List ℕ) → read_slice (borrowed_slice bytes) ≡ some bytes
unfolding read_slice borrowed_slice
read_slice-borrowed_slice [] = refl
read_slice-borrowed_slice (b ∷ bytes) = ground arith
