-- ===== src/Protocol/FrameCuts.antt =====
-- crates/hmcl-runtime-protocol/src/lib.rs: a stream that ends within a frame.
use aura_rust_runtime_host.Base.{
  ℕ, zero, suc, ◌+◌, ◌<◌, ◌≤◌, ◌≡◌, refl, sym, ap, ◌∙◌, false, List, [], ◌∷◌, ◌++◌, length, take,
  ltb, if◌then◌else◌, err, arith, String,
}
use aura_rust_runtime_host.Codec.Bytes.{to_be_bytes, length-to_be_bytes}
use aura_rust_runtime_host.Protocol.Messages.{invalid_data}
use aura_rust_runtime_host.Protocol.Frames.{read_frame}
use aura_rust_runtime_host.Protocol.FrameRoundTrip.{FrameSize, delivers}
use aura_rust_runtime_host.Protocol.FrameEnds.{
  read_frame-truncated_header, read_frame-truncated_body,
}

length-take_at_most : (k : ℕ) (bs : List ℕ) → length (take k bs) ≤ k
length-take_at_most zero bs = omega arith
length-take_at_most (suc k) [] = omega arith
length-take_at_most (suc k) (b ∷ bs) = omega (arith, length-take_at_most k bs)

abbrev cut_at : ℕ → String
cut_at k = if ltb k 4 then "truncated frame header" else "truncated frame body"

cut_word :
    (n k : ℕ) (word body : List ℕ)
    → FrameSize n
    → to_be_bytes 4 n ≡ word
    → length word ≡ 4
    → 0 < k
    → k < 4 + n
    → read_frame (delivers (take k (word ++ body))) ≡ (err (invalid_data (cut_at k)), [])
cut_word n zero word body f e l h m = absurd (omega arith)
cut_word n (suc k) [] body f e l h m = absurd (omega arith)
cut_word n (suc k) (a ∷ []) body f e l h m = absurd (omega arith)
cut_word n (suc k) (a ∷ b ∷ []) body f e l h m = absurd (omega arith)
cut_word n (suc k) (a ∷ b ∷ c ∷ []) body f e l h m = absurd (omega arith)
cut_word n (suc k) (a ∷ b ∷ c ∷ d ∷ x ∷ xs) body f e l h m = absurd (omega arith)
cut_word n (suc zero) (a ∷ b ∷ c ∷ d ∷ []) body f e l h m =
    read_frame-truncated_header a [] (omega arith)
cut_word n (suc (suc zero)) (a ∷ b ∷ c ∷ d ∷ []) body f e l h m =
    read_frame-truncated_header a (b ∷ []) (omega arith)
cut_word n (suc (suc (suc zero))) (a ∷ b ∷ c ∷ d ∷ []) body f e l h m =
    read_frame-truncated_header a (b ∷ c ∷ []) (omega arith)
cut_word n (suc (suc (suc (suc k)))) (a ∷ b ∷ c ∷ d ∷ []) body f e l h m =
    let late : ltb (suc (suc (suc (suc k)))) 4 ≡ false = ground arith in
    rw late (
      ap (λ w. read_frame (delivers (w ++ take k body))) (sym e)
      ∙ read_frame-truncated_body n (take k body) f (omega (arith, length-take_at_most k body)))

-- A stream that ends within a frame of an allowed length, wherever it ends: where its first bytes, at
-- least one, are fewer than four, the header is reported as truncated, else the body is.
pub read_frame-cut :
    (n k : ℕ) (body : List ℕ)
    → FrameSize n
    → 0 < k
    → k < 4 + n
    → read_frame (delivers (take k (to_be_bytes 4 n ++ body))) ≡ (
      err (invalid_data (if ltb k 4 then "truncated frame header" else "truncated frame body")),
      [],
    )
read_frame-cut n k body f h m =
    cut_word n k (to_be_bytes 4 n) body f refl (length-to_be_bytes 4 n) h m
