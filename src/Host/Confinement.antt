-- ===== src/Host/Confinement.antt =====
-- crates/hmcl-rust-host-native/src/embedded.rs: a library is loaded from its package only.
use aura_rust_runtime_host.Base.{
  ◌≡◌, ◌∙◌, sym, ap, refl, Bool, true, false, not, ◌||◌, Result, ok, err, >>=-eq-ok, if◌then◌else◌,
}
use aura_rust_runtime_host.Host.Errors.{HostError, entrypoint_escape}
use aura_rust_runtime_host.Host.Paths.{FilePath, starts_with, candidate, resolve_entrypoint}

-- A path that was resolved is the canonical form of a path, stands under the canonical root of the
-- package, and is a file, whatever the file system and the entrypoint.
pub resolve_entrypoint-confined :
    (canonicalize : FilePath → Result HostError FilePath) (is_file : FilePath → Bool)
    (package_root entrypoint found : FilePath)
    → resolve_entrypoint canonicalize is_file package_root entrypoint ≡ ok found
    → (root : FilePath) × (chosen : FilePath) × (canonicalize package_root ≡ ok root)
      × (canonicalize chosen ≡ ok found)
      × (starts_with found root ≡ true)
      × (is_file found ≡ true)
unfolding resolve_entrypoint
resolve_entrypoint-confined canonicalize is_file package_root entrypoint found h =
    let (root, p, h1) = >>=-eq-ok (canonicalize package_root) _ h in
    let (chosen, q, h2) =
      >>=-eq-ok (candidate canonicalize is_file package_root root entrypoint) _ h1 in
    let (canonical, r, h3) = >>=-eq-ok (canonicalize chosen) _ h2 in
    let (e, s, f) =
      guard canonical root found (starts_with canonical root) (is_file canonical) refl refl h3 in
    (root, chosen, p, cc, s, f)
  where
    guard :
        (c root found : FilePath) (a b : Bool)
        → starts_with c root ≡ a
        → is_file c ≡ b
        → (if not a || not b then err entrypoint_escape else ok c) ≡ ok found
        → (c ≡ found) × (starts_with found root ≡ true) × (is_file found ≡ true)
    guard c root found true true x y h =
        let e : c ≡ found = cc in
        (e, ap (λ t. starts_with t root) (sym e) ∙ x, ap is_file (sym e) ∙ y)
    guard c root found true false x y h = cc
    guard c root found false b x y h = cc
