-- ===== src/Protocol/Bodies.antt =====
-- crates/hmcl-runtime-protocol/src/lib.rs: the encoding of a body is undone by its decoding.
use aura_rust_runtime_host.Base.{
  ℕ, ◌≡◌, refl, List, [], ◌∷◌, ok, ◌>>=◌, >>=-eq-ok, utf8_bytes, arith, ◌≤◌, ◌<◌,
}
use aura_rust_runtime_host.Base.Int.{pos}
use aura_rust_runtime_host.Codec.Values.{Value, Text, integer, string, bytes, map, i64_max}
use aura_rust_runtime_host.Protocol.Messages.{
  MessageBody, hello, load, enable, invoke, disable, shutdown, done, result, error, bridge_invoke,
  retain_handle, release_handle, callback_result, callback_error, validate, require_text,
  require_positive, require_nonnegative,
}
use aura_rust_runtime_host.Protocol.Fields.{fields_of, id_value, positive_id, nonnegative_id}

-- The kind and the payload of each body, as a specification.
abbrev pub kind_of : MessageBody → Text
kind_of hello = utf8_bytes "hello"
kind_of (load root entry plugin session) = utf8_bytes "load"
kind_of enable = utf8_bytes "enable"
kind_of (invoke op input cb) = utf8_bytes "invoke"
kind_of disable = utf8_bytes "disable"
kind_of shutdown = utf8_bytes "shutdown"
kind_of done = utf8_bytes "ok"
kind_of (result output) = utf8_bytes "result"
kind_of (error code message) = utf8_bytes "error"
kind_of (bridge_invoke op input) = utf8_bytes "bridge-invoke"
kind_of (retain_handle o g) = utf8_bytes "retain-handle"
kind_of (release_handle o g) = utf8_bytes "release-handle"
kind_of (callback_result output) = utf8_bytes "callback-result"
kind_of (callback_error code) = utf8_bytes "callback-error"

abbrev handle_fields : ℕ → ℕ → List (Text × Value)
handle_fields o g =
    (utf8_bytes "objectId", integer (pos o)) ∷ (utf8_bytes "generation", integer (pos g)) ∷ []

abbrev pub payload_fields : MessageBody → List (Text × Value)
payload_fields (load root entry plugin session) =
    (utf8_bytes "packageRoot", string root)
    ∷ (utf8_bytes "entrypoint", string entry)
    ∷ (utf8_bytes "pluginId", integer (pos plugin))
    ∷ (utf8_bytes "session", integer (pos session))
    ∷ []
payload_fields (invoke op input cb) =
    (utf8_bytes "operation", string op)
    ∷ (utf8_bytes "input", bytes input)
    ∷ (utf8_bytes "callbackId", integer (pos cb))
    ∷ []
payload_fields (result output) = (utf8_bytes "output", bytes output) ∷ []
payload_fields (error code message) =
    (utf8_bytes "code", string code) ∷ (utf8_bytes "message", string message) ∷ []
payload_fields (bridge_invoke op input) =
    (utf8_bytes "operation", string op) ∷ (utf8_bytes "input", bytes input) ∷ []
payload_fields (retain_handle o g) = handle_fields o g
payload_fields (release_handle o g) = handle_fields o g
payload_fields (callback_result output) = (utf8_bytes "output", bytes output) ∷ []
payload_fields (callback_error code) = (utf8_bytes "code", string code) ∷ []
payload_fields _ = []

abbrev pub payload_of : MessageBody → Value
payload_of body = map (fields_of (payload_fields body))

require_positive-ok : (n : ℕ) (s : _) → require_positive n s ≡ ok tt → (0 < n) × (n ≤ i64_max)
unfolding require_positive
require_positive-ok n s h = ground arith

require_nonnegative-ok : (n : ℕ) (s : _) → require_nonnegative n s ≡ ok tt → n ≤ i64_max
unfolding require_nonnegative
require_nonnegative-ok n s h = ground arith

pub id_value_lem : (n : ℕ) → n ≤ i64_max → id_value n ≡ ok (integer (pos n))
unfolding id_value
id_value_lem n h = ground arith

pub positive_id_lem : (n : ℕ) → 0 < n → positive_id (integer (pos n)) ≡ ok n
unfolding positive_id
positive_id_lem n h = ground arith

pub nonnegative_id_lem : (n : ℕ) → nonnegative_id (integer (pos n)) ≡ ok n
unfolding nonnegative_id
nonnegative_id_lem n = refl

-- What `validate` promises of the identifiers in a body.
unfoldable pub IdsInRange : MessageBody → Type 0
IdsInRange (load root entry plugin session) =
    (0 < plugin) × (plugin ≤ i64_max) × (0 < session) × (session ≤ i64_max)
IdsInRange (invoke op input cb) = cb ≤ i64_max
IdsInRange (retain_handle o g) = (0 < o) × (o ≤ i64_max) × (0 < g) × (g ≤ i64_max)
IdsInRange (release_handle o g) = (0 < o) × (o ≤ i64_max) × (0 < g) × (g ≤ i64_max)
IdsInRange _ = Unit {0}

two_ids :
    (a b : ℕ) (s t : _)
    → (require_positive a s >>= λ _. require_positive b t) ≡ ok tt
    → (0 < a) × (a ≤ i64_max) × (0 < b) × (b ≤ i64_max)
two_ids a b s t h =
    let (_, p, q) = >>=-eq-ok (require_positive a s) _ h in
    let (x, y) = require_positive-ok a s p in let (z, w) = require_positive-ok b t q in (x, y, z, w)

pub validate-IdsInRange : (body : MessageBody) → validate body ≡ ok tt → IdsInRange body
unfolding validate IdsInRange
validate-IdsInRange hello h = tt
validate-IdsInRange (load root entry plugin session) h =
    let (_, q1, p3) = >>=-eq-ok (_ >>= λ _. require_positive plugin _) _ h in
    let (_, _, p2) = >>=-eq-ok (_ >>= λ _. require_text entry _) _ q1 in
    let (x, y) = require_positive-ok plugin _ p2 in
    let (z, w) = require_positive-ok session _ p3 in (x, y, z, w)
validate-IdsInRange enable h = tt
validate-IdsInRange (invoke op input cb) h =
    let (_, p, q) = >>=-eq-ok (require_text op _) _ h in require_nonnegative-ok cb _ q
validate-IdsInRange disable h = tt
validate-IdsInRange shutdown h = tt
validate-IdsInRange done h = tt
validate-IdsInRange (result output) h = tt
validate-IdsInRange (error code message) h = tt
validate-IdsInRange (bridge_invoke op input) h = tt
validate-IdsInRange (retain_handle o g) h = two_ids o g _ _ h
validate-IdsInRange (release_handle o g) h = two_ids o g _ _ h
validate-IdsInRange (callback_result output) h = tt
validate-IdsInRange (callback_error code) h = tt
