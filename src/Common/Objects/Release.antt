-- ===== src/Common/Objects/Release.antt =====
-- What client_close_ctx of client.c and server_close_ctx of server.c release. The messages to the
-- other side, which they send before, are in Client/Teardown.antt and Server/Teardown.antt.
use rdma_rendezvous_key_valu.Prelude.{ℕ, Bool, true, false, Option, none, some, if◌then◌else◌}
use rdma_rendezvous_key_valu.Prelude.Exec.{Exec, pure, ◌>>=◌, ◌>>◌}
use rdma_rendezvous_key_valu.Common.Objects.{Verbs, Objects, destroy, close_device, free}
use rdma_rendezvous_key_valu.Common.Objects.Setup.{ContextObjects}

module _ ⦃v : Verbs⦄ where
  -- A result other than 0 is printed only.
  release : ℕ → Exec Objects (Unit {0})
  release name = do released ← destroy name; pure tt

  release_if : Option ℕ → Exec Objects (Unit {0})
  unfolding release
  release_if none = pure tt
  release_if (some name) = release name

  -- From ibv_destroy_cq on, which is the same in the two functions.
  unfoldable pub release_objects : ContextObjects → Exec Objects (Unit {0})
  unfolding release_if
  release_objects ctx = do
    release ctx.cq
    release ctx.mr_in
    release ctx.mr_out
    release ctx.pd
    release_if ctx.channel
    closed ← close_device ctx.context
    free ctx.in_buf
    free ctx.out_buf
    free ctx.self

  unfoldable pub release_client : ContextObjects → Exec Objects (Unit {0})
  unfolding release_objects
  release_client ctx = do release_if ctx.qp; release_objects ctx

  -- The start of server_close_ctx, and whether it goes on.
  unfoldable pub destroy_own_qp : ContextObjects → Exec Objects Bool
  destroy_own_qp ctx = elim ctx.qp [ none ↦ pure true | some qp ↦ destroy qp ]

  -- server_close_ctx without its loop over the connections. `true` is the result 0.
  unfoldable pub release_server : ContextObjects → Exec Objects Bool
  unfolding destroy_own_qp release_objects
  release_server ctx = do
    destroyed ← destroy_own_qp ctx
    if destroyed then (do release_objects ctx; pure true) else pure false
