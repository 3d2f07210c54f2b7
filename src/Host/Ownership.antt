-- ===== src/Host/Ownership.antt =====
-- crates/hmcl-rust-host-native/src/embedded.rs: each buffer is given back once.
use aura_rust_runtime_host.Base.{
  ℕ, suc, ◌≡◌, ◌≢◌, ◌<◌, ◌⊎◌, Option, none, Bool-cases, inl, inr, refl, sym, ap, ◌∙◌, true, false,
  some, List, [], ◌∷◌, ok, err, ◌==◌, length, take, arith,
}
use mathlib.Core.Path.{subst}
use aura_rust_runtime_host.Futures.Table.{
  insert, lookup, remove, lookup-insert_same, lookup-insert_other, lookup-remove_same,
  lookup-remove_other,
}
use aura_rust_runtime_host.Host.Errors.{invalid_host_result}
use aura_rust_runtime_host.Abi.Buffers.{OwnedBuffer, empty_buffer}
use aura_rust_runtime_host.Host.Buffers.{
  HostCallbacks, allocate, allocate_box, fits, release, release_box, take_output, take_box, zeros,
}

pub take_all : (bs : List ℕ) → take (length bs) bs ≡ bs
take_all [] = refl
take_all (b ∷ bs) = ap (λ t. b ∷ t) (take_all bs)

-- Where an allocation took the bytes of a result, the buffer holds them.
abbrev Descriptor : ℕ → List ℕ → OwnedBuffer
Descriptor pointer bytes = record {
  data_pointer = pointer;
  len = length bytes;
  capacity = length bytes;
}

pub allocate_result :
    (pointer : ℕ) (host : HostCallbacks) (b : ℕ) (bs : List ℕ)
    → allocate pointer host (length (b ∷ bs)) (some (b ∷ bs)) ≡ (
      ok (Descriptor pointer (b ∷ bs)),
      record host { allocations = insert host.allocations pointer (b ∷ bs) },
    )
unfolding allocate allocate_box
allocate_result pointer host b bs = ground arith

pub take_box_all : (pointer : ℕ) (bs : List ℕ) → take_box (Descriptor pointer bs) (some bs) ≡ ok bs
unfolding take_box
take_box_all pointer bs =
    let f : fits (Descriptor pointer bs) bs ≡ true = ground arith in rw f (ap ok (take_all bs))

pub take_empty : (host : HostCallbacks) → (take_output host empty_buffer).0 ≡ ok []
unfolding take_output
take_empty host = refl

read_back :
    (pointer : ℕ) (host : HostCallbacks) (b : ℕ) (bs : List ℕ)
    → (take_output
        (record host { allocations = insert host.allocations pointer (b ∷ bs) })
        (Descriptor pointer (b ∷ bs))).0
      ≡ ok (b ∷ bs)
unfolding take_output
read_back pointer host b bs =
    let positive : (suc (length bs) == 0) ≡ false = ground arith in
    rw positive (
      ap (take_box (Descriptor pointer (b ∷ bs)))
        (lookup-insert_same host.allocations pointer (b ∷ bs))
      ∙ take_box_all pointer (b ∷ bs))

-- A buffer that was allocated with the bytes of a result is taken as those bytes.
pub take_output-allocate :
    (pointer : ℕ) (host next : HostCallbacks) (bytes : List ℕ) (buffer : OwnedBuffer)
    → allocate pointer host (length bytes) (some bytes) ≡ (ok buffer, next)
    → (take_output next buffer).0 ≡ ok bytes
unfolding allocate
take_output-allocate pointer host next [] buffer h =
    let q : empty_buffer ≡ buffer = let z = ap (λ p. p.0) h in cc in rw (sym q) (take_empty next)
take_output-allocate pointer host next (b ∷ bs) buffer h =
    let p = sym (allocate_result pointer host b bs) ∙ h in
    let q : Descriptor pointer (b ∷ bs) ≡ buffer = cc in
    let n : record host { allocations = insert host.allocations pointer (b ∷ bs) } ≡ next =
      ap (λ p. p.1) p in
    rw (sym q, sym n) (read_back pointer host b bs)

-- What the allocation table goes through while no new box is put at address `a`.
pub data Uses (a : ℕ) : HostCallbacks → HostCallbacks → Type 0 where
  start : {host : HostCallbacks} → Uses a host host
  allocated :
      {host later : HostCallbacks}
      → Uses a host later
      → (pointer len : ℕ) (initial : Option (List ℕ)) → a ≢ pointer
      → Uses a host (allocate pointer later len initial).1
  released :
      {host later : HostCallbacks}
      → Uses a host later
      → (buffer : OwnedBuffer) → Uses a host (release later buffer).1
  taken :
      {host later : HostCallbacks}
      → Uses a host later
      → (buffer : OwnedBuffer) → Uses a host (take_output later buffer).1

abbrev IsGone : ℕ → HostCallbacks → Type 0
IsGone a host = lookup host.allocations a ≡ none

remove-none : (t : List (ℕ × List ℕ)) (k a : ℕ) → lookup t a ≡ none → lookup (remove t k) a ≡ none
remove-none t k a h = elim (Bool-cases (k == a)) [
  | inl e ↦
      let same : k ≡ a = ground arith in
      subst (λ j. lookup (remove t k) j ≡ none) same (lookup-remove_same t k)
  | inr e ↦ lookup-remove_other t k a (ground arith) ∙ h
]

allocate-IsGone :
    (a pointer len : ℕ) (initial : Option (List ℕ)) (host : HostCallbacks)
    → a ≢ pointer
    → IsGone a host
    → IsGone a (allocate pointer host len initial).1
unfolding allocate allocate_box
allocate-IsGone a pointer len none host d h =
    let kept = lookup-insert_other host.allocations pointer a (zeros len) (λ e. d (sym e)) ∙ h in
    ground arith
allocate-IsGone a pointer len (some bytes) host d h =
    let kept = lookup-insert_other host.allocations pointer a bytes (λ e. d (sym e)) ∙ h in
    ground arith

release-IsGone :
    (a : ℕ) (host : HostCallbacks) (buffer : OwnedBuffer)
    → IsGone a host
    → IsGone a (release host buffer).1
unfolding release
release-IsGone a host buffer h =
    let kept = remove-none host.allocations buffer.data_pointer a h in ground arith

take_output-IsGone :
    (a : ℕ) (host : HostCallbacks) (buffer : OwnedBuffer)
    → IsGone a host
    → IsGone a (take_output host buffer).1
unfolding take_output
take_output-IsGone a host buffer h =
    let kept = remove-none host.allocations buffer.data_pointer a h in ground arith

Uses-IsGone :
    (a : ℕ) {host later : HostCallbacks} → Uses a host later → IsGone a host → IsGone a later
Uses-IsGone a start h = h
Uses-IsGone a (allocated {later} run pointer len initial d) h =
    allocate-IsGone a pointer len initial later d (Uses-IsGone a run h)
Uses-IsGone a (released {later} run buffer) h = release-IsGone a later buffer (Uses-IsGone a run h)
Uses-IsGone a (taken {later} run buffer) h = take_output-IsGone a later buffer (Uses-IsGone a run h)

spent-IsGone :
    (host first : HostCallbacks) (buffer : OwnedBuffer)
    → 0 < buffer.capacity
    → (first ≡ (take_output host buffer).1) ⊎ (first ≡ (release host buffer).1)
    → IsGone buffer.data_pointer first
unfolding take_output release
spent-IsGone host first buffer c (inl e) =
    let positive : (buffer.capacity == 0) ≡ false = ground arith in
    rw e (rw positive (lookup-remove_same host.allocations buffer.data_pointer))
spent-IsGone host first buffer c (inr e) =
    let positive : (buffer.capacity == 0) ≡ false = ground arith in
    rw e (rw positive (lookup-remove_same host.allocations buffer.data_pointer))

-- Once a descriptor of some capacity was taken or released, it is refused by both operations ever
-- after, through any later allocations, releases and takings, as long as no new box is put at its
-- address.
pub buffer_once :
    (host first later : HostCallbacks) (buffer : OwnedBuffer)
    → 0 < buffer.capacity
    → (first ≡ (take_output host buffer).1) ⊎ (first ≡ (release host buffer).1)
    → Uses buffer.data_pointer first later
    → ((take_output later buffer).0 ≡ err invalid_host_result)
      × ((release later buffer).0 ≡ err invalid_host_result)
unfolding take_output release take_box release_box
buffer_once host first later buffer c spent run =
    let positive : (buffer.capacity == 0) ≡ false = ground arith in
    let gone = Uses-IsGone buffer.data_pointer run (spent-IsGone host first buffer c spent) in
    rw (positive, gone) (refl, refl)
