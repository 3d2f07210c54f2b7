-- ===== src/Protocol/Validity.antt =====
-- crates/hmcl-runtime-protocol/src/lib.rs: what `MessageBody::validate` and `Message::new` accept.
use aura_rust_runtime_host.Base.{
  ℕ, ◌%◌, ◌≡◌, ◌≤◌, ◌<◌, ◌↔◌, refl, ◌∙◌, Bool, true, false, ◌||◌, List, [], ◌∷◌, ok, ◌==◌, arith,
  length, Bool-cases, inl, inr,
}
use aura_rust_runtime_host.Codec.Values.{Text, i64_max}
use aura_rust_runtime_host.Codec.Utf8.{is_blank, is_ascii_lowercase, is_ascii_digit}
use aura_rust_runtime_host.Protocol.Messages.{
  MessageBody, hello, load, enable, invoke, disable, shutdown, done, result, error, bridge_invoke,
  retain_handle, release_handle, callback_result, callback_error, validate, require_text,
  require_positive, require_nonnegative, require_code, is_code, kebab_rest, uses_even_request_id,
}
use aura_rust_runtime_host.Protocol.Envelope.{Message, Message_new, is_even}
use aura_rust_runtime_host.Protocol.MessageRoundTrip.{ValidMessage, Message_new-eq-ok_iff}

abbrev is_word_byte : ℕ → Bool
is_word_byte b = is_ascii_lowercase b || is_ascii_digit b

-- What follows the first letter of a code: lower-case letters and digits, and dashes each of which
-- stands before one of these.
pub data Kebab : List ℕ → Type 0 where
  ends : Kebab []
  letter : (b : ℕ) (bs : List ℕ) → is_word_byte b ≡ true → Kebab bs → Kebab (b ∷ bs)
  dashed : (b : ℕ) (bs : List ℕ) → is_word_byte b ≡ true → Kebab bs → Kebab (b'-' ∷ b ∷ bs)

word_byte-not_dash : (b : ℕ) → is_word_byte b ≡ true → (b == b'-') ≡ false
word_byte-not_dash b h = ground arith

kebab_rest-word :
    (separator : Bool) (b : ℕ) (bs : List ℕ)
    → is_word_byte b ≡ true
    → kebab_rest separator (b ∷ bs) ≡ kebab_rest false bs
unfolding kebab_rest
kebab_rest-word separator b bs h = rw (word_byte-not_dash b h, h) refl

kebab_rest_complete : (bs : List ℕ) → Kebab bs → kebab_rest false bs ≡ true
unfolding kebab_rest
kebab_rest_complete _ ends = refl
kebab_rest_complete _ (letter b bs h k) = kebab_rest-word false b bs h ∙ kebab_rest_complete bs k
kebab_rest_complete _ (dashed b bs h k) = kebab_rest-word true b bs h ∙ kebab_rest_complete bs k

-- What follows a dash.
abbrev Dashed : List ℕ → Type 0
Dashed [] = ⊥
Dashed (b ∷ bs) = (is_word_byte b ≡ true) × Kebab bs

Dashed-Kebab : (b : ℕ) (bs : List ℕ) → (b == b'-') ≡ true → Dashed bs → Kebab (b ∷ bs)
Dashed-Kebab b [] e h = absurd h
Dashed-Kebab b (c ∷ bs) e (h, k) = let same : b ≡ b'-' = ground arith in rw same (dashed c bs h k)

kebab_rest_sound :
    (bs : List ℕ)
    → (kebab_rest false bs ≡ true → Kebab bs) × (kebab_rest true bs ≡ true → Dashed bs)
unfolding kebab_rest
kebab_rest_sound [] = (λ h. ends, λ h. absurd cc)
kebab_rest_sound (b ∷ bs) =
    let (plain, after_dash) = kebab_rest_sound bs in
    elim (Bool-cases (b == b'-')) [
      | inl e ↦
          (λ h. Dashed-Kebab b bs e (after_dash (rw e at h)), λ h. let z = rw e at h in absurd cc)
      | inr e ↦ elim (Bool-cases (is_word_byte b)) [
        | inl w ↦ (λ h. letter b bs w (plain (rw (e, w) at h)), λ h. (w, plain (rw (e, w) at h)))
        | inr w ↦
            (λ h. let z = rw (e, w) at h in absurd cc, λ h. let z = rw (e, w) at h in absurd cc)
      ]
    ]

-- A code: a lower-case letter and what may follow it, 128 bytes at most.
abbrev pub IsCode : Text → Type 0
IsCode [] = ⊥
IsCode (b ∷ bs) = (is_ascii_lowercase b ≡ true) × Kebab bs × (length (b ∷ bs) ≤ 128)

is_code_iff : (code : Text) → (is_code code ≡ true) ↔ IsCode code
unfolding is_code
is_code_iff [] = (λ h. absurd cc, λ h. absurd h)
is_code_iff (b ∷ bs) = (
  λ h. (ground arith, (kebab_rest_sound bs).0 (ground arith), ground arith),
  λ (l, k, n). let z = kebab_rest_complete bs k in ground arith,
)

abbrev IsIdentifier : ℕ → Type 0
IsIdentifier n = (0 < n) × (n ≤ i64_max)

abbrev IsText : Text → Type 0
IsText text = is_blank text ≡ false

-- The constraints on a body, by its kind.
abbrev pub IsValidBody : MessageBody → Type 0
IsValidBody (load root entry plugin session) =
    IsText root × IsText entry × IsIdentifier plugin × IsIdentifier session
IsValidBody (invoke op input callback) = IsText op × (callback ≤ i64_max)
IsValidBody (error code message) = IsCode code × IsText message × (length message ≤ 4096)
IsValidBody (bridge_invoke op input) = IsText op
IsValidBody (retain_handle object version) = IsIdentifier object × IsIdentifier version
IsValidBody (release_handle object version) = IsIdentifier object × IsIdentifier version
IsValidBody (callback_error code) = IsCode code
IsValidBody _ = Unit {0}

-- The messages that a child process sends of its own accord, and the answers to these, have even
-- identifiers; the commands of the parent process and their answers have odd ones.
abbrev pub parity : MessageBody → ℕ
parity (bridge_invoke op input) = 0
parity (retain_handle object version) = 0
parity (release_handle object version) = 0
parity (callback_result output) = 0
parity (callback_error code) = 0
parity _ = 1

validate_sound : (body : MessageBody) → validate body ≡ ok tt → IsValidBody body
unfolding validate require_text require_positive require_nonnegative require_code
validate_sound hello h = tt
validate_sound (load root entry plugin session) h = ground arith
validate_sound enable h = tt
validate_sound (invoke op input callback) h = ground arith
validate_sound disable h = tt
validate_sound shutdown h = tt
validate_sound done h = tt
validate_sound (result output) h = tt
validate_sound (error code message) h =
    ((is_code_iff code).0 (ground arith), ground arith, ground arith)
validate_sound (bridge_invoke op input) h = ground arith
validate_sound (retain_handle object version) h = ground arith
validate_sound (release_handle object version) h = ground arith
validate_sound (callback_result output) h = tt
validate_sound (callback_error code) h = (is_code_iff code).0 (ground arith)

validate_complete : (body : MessageBody) → IsValidBody body → validate body ≡ ok tt
unfolding validate require_text require_positive require_nonnegative require_code
validate_complete hello h = refl
validate_complete (load root entry plugin session) h = ground arith
validate_complete enable h = refl
validate_complete (invoke op input callback) h = ground arith
validate_complete disable h = refl
validate_complete shutdown h = refl
validate_complete done h = refl
validate_complete (result output) h = refl
validate_complete (error code message) (c, h, k) = let z = (is_code_iff code).1 c in ground arith
validate_complete (bridge_invoke op input) h = ground arith
validate_complete (retain_handle object version) h = ground arith
validate_complete (release_handle object version) h = ground arith
validate_complete (callback_result output) h = refl
validate_complete (callback_error code) c = let z = (is_code_iff code).1 c in ground arith

parity_iff :
    (n : ℕ) (body : MessageBody) → (is_even n ≡ uses_even_request_id body) ↔ (n % 2 ≡ parity body)
unfolding uses_even_request_id
parity_iff n (bridge_invoke op input) = (λ h. ground arith, λ h. ground arith)
parity_iff n (retain_handle object version) = (λ h. ground arith, λ h. ground arith)
parity_iff n (release_handle object version) = (λ h. ground arith, λ h. ground arith)
parity_iff n (callback_result output) = (λ h. ground arith, λ h. ground arith)
parity_iff n (callback_error code) = (λ h. ground arith, λ h. ground arith)
parity_iff n hello = (λ h. ground arith, λ h. ground arith)
parity_iff n (load root entry plugin session) = (λ h. ground arith, λ h. ground arith)
parity_iff n enable = (λ h. ground arith, λ h. ground arith)
parity_iff n (invoke op input callback) = (λ h. ground arith, λ h. ground arith)
parity_iff n disable = (λ h. ground arith, λ h. ground arith)
parity_iff n shutdown = (λ h. ground arith, λ h. ground arith)
parity_iff n done = (λ h. ground arith, λ h. ground arith)
parity_iff n (result output) = (λ h. ground arith, λ h. ground arith)
parity_iff n (error code message) = (λ h. ground arith, λ h. ground arith)

-- `Message::new` accepts an identifier and a body exactly where the identifier is positive, a signed
-- 64-bit integer and of the parity of the body's direction, and the body keeps the constraints of its
-- kind: texts are not blank, identifiers are in range, codes are lower-case kebab texts of 128 bytes at
-- most, and the message of an error has 4096 bytes at most. It returns its two arguments.
pub Message_new_lem :
    (n : ℕ) (body : MessageBody) (m : Message)
    → (Message_new n body ≡ ok m) ↔ (
        (0 < n)
        × (n ≤ i64_max)
        × (n % 2 ≡ parity body)
        × IsValidBody body
        × (record { request_id = n; body = body } ≡ m))
unfolding ValidMessage
Message_new_lem n body m =
    let (there, back) = Message_new-eq-ok_iff n body m in
    let (even, odd) = parity_iff n body in
    (
      λ h. let ((a, b, c, d), e) = there h in (a, b, even c, validate_sound body d, e),
      λ (a, b, c, d, e). back ((a, b, odd c, validate_complete body d), e),
    )
