-- ===== src/Common/Objects/Setup.antt =====
-- server_init_ctx and client_init_ctx of common/connection.c.
use rdma_rendezvous_key_valu.Prelude.{
  ℕ, suc, Bool, true, false, List, [], ◌∷◌, Option, none, some, if◌then◌else◌,
}
use rdma_rendezvous_key_valu.Prelude.Exec.{done, Exec, pure, ◌>>=◌, ◌>>◌}
use rdma_rendezvous_key_valu.Common.Objects.{Verbs, Objects, make, or_null}

-- The fields of struct kv_context that the set-up fills: the objects by their names, and a null
-- pointer as `none`.
pub record ContextObjects : Type 0 where
  pub self : ℕ
  pub in_buf : ℕ
  pub out_buf : ℕ
  pub context : ℕ
  pub channel : Option ℕ
  pub pd : ℕ
  pub mr_in : ℕ
  pub mr_out : ℕ
  pub cq : ℕ
  pub qp : Option ℕ
  pub in_size : ℕ
  pub out_size : ℕ
  pub max_recv_buff : ℕ
  pub curr_recv_buff : ℕ

abbrev maybe : Option ℕ → List ℕ → List ℕ
maybe none xs = xs
maybe (some p) xs = p ∷ xs

module _ ⦃v : Verbs⦄ where
  -- `qp` stays as calloc has left it.
  unfoldable pub server_init_ctx :
      (in_size out_size max_recv_buf : ℕ) → Exec Objects (Option ContextObjects)
  server_init_ctx in_size out_size max_recv_buf = or_null (make v.calloc []) λ ctx.
      or_null (make v.calloc []) λ in_buf. or_null (make v.calloc []) λ out_buf.
        or_null (make v.ibv_open_device []) λ context.
          or_null (make v.ibv_alloc_pd (context ∷ [])) λ pd.
            or_null (make v.ibv_reg_mr (pd ∷ in_buf ∷ [])) λ mr_in.
              or_null (make v.ibv_reg_mr (pd ∷ out_buf ∷ [])) λ mr_out.
                or_null (make v.ibv_create_cq (context ∷ [])) λ cq. pure (
                  some (record {
                    self = ctx;
                    in_buf = in_buf;
                    out_buf = out_buf;
                    context = context;
                    channel = none;
                    pd = pd;
                    mr_in = mr_in;
                    mr_out = mr_out;
                    cq = cq;
                    qp = none;
                    in_size = in_size;
                    out_size = out_size;
                    max_recv_buff = max_recv_buf;
                    curr_recv_buff = 0;
                  }))

  -- ibv_query_qp, whose result is the inline limit only
  query_qp : Exec Objects (Unit {0})
  query_qp s = done (tt, record s { calls = suc s.calls })

  modify_qp : Exec Objects Bool
  modify_qp s = done (v.ibv_modify_qp s.calls, record s { calls = suc s.calls })

  -- client_init_ctx, from ibv_create_qp on.
  create_client_qp : ContextObjects → Exec Objects (Option ContextObjects)
  unfolding query_qp modify_qp
  create_client_qp ctx = or_null (make v.ibv_create_qp (ctx.pd ∷ ctx.cq ∷ [])) λ qp. do
    query_qp
    ready ← modify_qp
    if ready then pure (some (record ctx { qp = some qp })) else pure none

  make_channel : Bool → ℕ → Exec Objects (Option (Option ℕ))
  make_channel true context =
      or_null (make v.ibv_create_comp_channel (context ∷ [])) λ channel. pure (some (some channel))
  make_channel false context = pure (some none)

  unfoldable pub client_init_ctx :
      (in_size out_size rx_depth : ℕ) (use_event : Bool) → Exec Objects (Option ContextObjects)
  unfolding make_channel create_client_qp
  client_init_ctx in_size out_size rx_depth use_event = or_null (make v.calloc []) λ ctx.
      or_null (make v.calloc []) λ in_buf. or_null (make v.calloc []) λ out_buf.
        or_null (make v.ibv_open_device []) λ context.
          or_null (make_channel use_event context) λ channel.
            or_null (make v.ibv_alloc_pd (context ∷ [])) λ pd.
              or_null (make v.ibv_reg_mr (pd ∷ in_buf ∷ [])) λ mr_in.
                or_null (make v.ibv_reg_mr (pd ∷ out_buf ∷ [])) λ mr_out.
                  or_null (make v.ibv_create_cq (context ∷ maybe channel [])) λ cq.
                    create_client_qp (record {
                      self = ctx;
                      in_buf = in_buf;
                      out_buf = out_buf;
                      context = context;
                      channel = channel;
                      pd = pd;
                      mr_in = mr_in;
                      mr_out = mr_out;
                      cq = cq;
                      qp = none;
                      in_size = in_size;
                      out_size = out_size;
                      max_recv_buff = rx_depth;
                      curr_recv_buff = rx_depth;
                    })
