-- ===== src/Host/Order.antt =====
-- crates/hmcl-rust-host-process/src/server.rs: the order of the parent's commands.
use aura_rust_runtime_host.Base.{◌≡◌, ◌≢◌, refl, ◌⊎◌, inl, inr, ok, false}
use aura_rust_runtime_host.Protocol.Messages.{
  MessageBody, hello, load, enable, invoke, disable, shutdown, done, result, error, bridge_invoke,
  retain_handle, release_handle, callback_result, callback_error,
}
use aura_rust_runtime_host.Host.Server.{
  World, State, await_hello, await_load, Platform, Server_hello, Server_load, Server_enable,
  Server_disable, Server_invoke, Server_shutdown, require_loaded,
}
use aura_rust_runtime_host.Host.Serve.{Handled, handle}

abbrev pub Behind : {Q : Type 0} → Handled Q → State Q × World Q
Behind (r, behind) = behind

-- A server that waits for `hello` answers `hello` with `done`, does not close, and waits for a load
-- from then on, in the same world. Every other body leaves the server and the world as they were.
pub handle-before_hello :
    (Q : Type 0) (platform : Platform Q) (world : World Q) (body : MessageBody)
    → ((body ≡ hello)
        × (handle platform await_hello world body ≡ (ok (done, false), (await_load, world))))
      ⊎ ((body ≢ hello) × (Behind (handle platform await_hello world body) ≡ (await_hello, world)))
unfolding handle Server_hello Server_load Server_enable Server_disable Server_invoke Server_shutdown
    require_loaded
handle-before_hello Q platform world hello = inl (refl, refl)
handle-before_hello Q platform world (load root entry plugin session) = inr ((λ e. cc), refl)
handle-before_hello Q platform world enable = inr ((λ e. cc), refl)
handle-before_hello Q platform world (invoke op input cb) = inr ((λ e. cc), refl)
handle-before_hello Q platform world disable = inr ((λ e. cc), refl)
handle-before_hello Q platform world shutdown = inr ((λ e. cc), refl)
handle-before_hello Q platform world done = inr ((λ e. cc), refl)
handle-before_hello Q platform world (result output) = inr ((λ e. cc), refl)
handle-before_hello Q platform world (error code message) = inr ((λ e. cc), refl)
handle-before_hello Q platform world (bridge_invoke op input) = inr ((λ e. cc), refl)
handle-before_hello Q platform world (retain_handle o g) = inr ((λ e. cc), refl)
handle-before_hello Q platform world (release_handle o g) = inr ((λ e. cc), refl)
handle-before_hello Q platform world (callback_result output) = inr ((λ e. cc), refl)
handle-before_hello Q platform world (callback_error code) = inr ((λ e. cc), refl)
