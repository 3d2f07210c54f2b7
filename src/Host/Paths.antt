-- ===== src/Host/Paths.antt =====
-- crates/hmcl-rust-host-native/src/embedded.rs: where a payload's library may stand.
use aura_rust_runtime_host.Base.{
  Bool, true, false, not, ◌||◌, ◌&&◌, List, [], ◌∷◌, ◌++◌, Result, ok, err, ◌>>=◌, bytes_eq,
  if◌then◌else◌,
}
use aura_rust_runtime_host.Codec.Values.{Text}
use aura_rust_runtime_host.Host.Errors.{HostError, entrypoint_escape}

-- `std::path::Path`, by its components.
pub record FilePath : Type 0 where
  pub absolute : Bool
  pub components : List Text

unfoldable pub has_prefix : List Text → List Text → Bool
has_prefix cs [] = true
has_prefix [] (d ∷ ds) = false
has_prefix (c ∷ cs) (d ∷ ds) = bytes_eq c d && has_prefix cs ds

-- `Path::starts_with` compares whole components.
unfoldable pub starts_with : FilePath → FilePath → Bool
unfolding has_prefix
starts_with path base =
    (if base.absolute then path.absolute else not path.absolute)
    && has_prefix path.components base.components

-- `Path::join`: an absolute path replaces the base.
abbrev pub join : FilePath → FilePath → FilePath
join base path =
    if path.absolute then path else record base { components = base.components ++ path.components }

-- The file system: `canonicalize` fails on what is not there.
module _ (canonicalize : FilePath → Result HostError FilePath) (is_file : FilePath → Bool) where
  unfoldable pub candidate : FilePath → FilePath → FilePath → Result HostError FilePath
  unfolding starts_with
  candidate package_root root entrypoint =
      if entrypoint.absolute
      then (if not (starts_with entrypoint package_root) && not (starts_with entrypoint root)
          then err entrypoint_escape
          else ok entrypoint)
      else ok (join root entrypoint)

  unfoldable pub resolve_entrypoint : FilePath → FilePath → Result HostError FilePath
  unfolding candidate
  resolve_entrypoint package_root entrypoint = do
    root ← canonicalize package_root
    chosen ← candidate package_root root entrypoint
    canonical ← canonicalize chosen
    if not (starts_with canonical root) || not (is_file canonical)
        then err entrypoint_escape
        else ok canonical
